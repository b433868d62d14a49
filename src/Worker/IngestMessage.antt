-- ===== src/Worker/IngestMessage.antt =====
-- app/worker/ingest_worker.py: what a message of the stream asks for, and its count of retries.
use ject6_4th_ai_analyzer.Base.{
  Option, none, some, [], ◌++◌, Text, codes, take, is_empty, ◌==◌, text_eq, if◌then◌else◌,
}
use ject6_4th_ai_analyzer.Base.Int.{ℤ, pos}
use ject6_4th_ai_analyzer.Base.Decimal.{read_int}
use ject6_4th_ai_analyzer.Base.Dict.{Dict, lookup}
use ject6_4th_ai_analyzer.Domain.Enums.{read_source_type}
use ject6_4th_ai_analyzer.Domain.Json.{string, Fields, end, set_field, get_field}
use ject6_4th_ai_analyzer.Domain.Schemas.{ChunkRequest}
use ject6_4th_ai_analyzer.Core.Exceptions.{builtin, key_error, value_error}
use ject6_4th_ai_analyzer.Core.Effects.{Env, Result, ok, err}
use ject6_4th_ai_analyzer.Core.Parsing.{non_empty, parse_int}
use ject6_4th_ai_analyzer.Repository.CrawlQueue.{CrawlMessage}

-- `fields.get(key) or None`
unfoldable pub get_set : Text → Dict Text → Option Text
unfolding non_empty
get_set key fields = non_empty (lookup key fields)

-- `if value: metadata[key] = value`
unfoldable pub put_set : Text → Option Text → Fields → Fields
put_set key none metadata = metadata
put_set key (some value) metadata = set_field key (string value) metadata

-- A string of the metadata.
unfoldable pub get_string : Text → Fields → Option Text
get_string key metadata = elim (get_field key metadata) [ some (string t) ↦ some t | _ ↦ none ]

unfoldable pub message_metadata : Dict Text → Text → Fields
unfolding get_set put_set
message_metadata fields source_type_raw =
    let blog : Fields = put_set (codes "blog_id") (get_set (codes "blog_id") fields) end in
    let correlation =
      put_set (codes "correlation_id") (get_set (codes "correlation_id") fields) blog in
    let url = put_set (codes "post_url") (get_set (codes "url") fields) correlation in
    let nickname = put_set (codes "nickname") (get_set (codes "nickname") fields) url in
    let category = put_set (codes "category") (get_set (codes "category") fields) nickname in
    if source_type_raw == codes "ext_blog"
    then put_set (codes "source_blog_url") (get_set (codes "source_blog_url") fields) category
    else url

-- `(fields.get("title") or fields.get("url") or "")[:512]`
unfoldable pub message_title : Dict Text → Text
unfolding get_set
message_title fields = take 512 (elim (get_set (codes "title") fields) [
  | some title ↦ title
  | none ↦ elim (get_set (codes "url") fields) [ some url ↦ url | none ↦ [] ]
])

-- `int(fields.get("retry_count", "0"))`, and 0 where that is no number
unfoldable pub read_retry_count : CrawlMessage → ℤ
read_retry_count m = elim (lookup (codes "retry_count") m.fields) [
  | none ↦ pos 0
  | some text ↦ elim (read_int text) [ none ↦ pos 0 | some n ↦ n ]
]

module _ (env : Env) where
  -- `int(expected_count_raw) if expected_count_raw else None`
  unfoldable pub expected_count_of : Dict Text → Result (Option ℤ)
  unfolding get_set parse_int
  expected_count_of fields = elim (get_set (codes "expected_count") fields) [
    | none ↦ ok none
    | some text ↦ elim (parse_int env text) [ ok n ↦ ok (some n) | err e ↦ err e ]
  ]

  -- `ChunkRequest(...)`, its arguments in the order of the code.
  unfoldable pub request_of : Dict Text → Text → Result ChunkRequest
  unfolding get_set parse_int message_title message_metadata
  request_of fields source_type_raw = elim (lookup (codes "user_id") fields) [
    | none ↦ err (builtin key_error (codes "user_id"))
    | some user_id_raw ↦ elim (parse_int env user_id_raw) [
      | err e ↦ err e
      | ok user_id ↦ elim (read_source_type source_type_raw) [
        | none ↦
            err
              (builtin value_error (env.repr source_type_raw ++ codes " is not a valid SourceType"))
        | some source_type ↦ elim (lookup (codes "content") fields) [
          | none ↦ err (builtin key_error (codes "content"))
          | some content ↦
              if is_empty content
              then err (builtin value_error env.min_length_text)
              else ok (record {
                user_id = user_id;
                source_type = source_type;
                title = message_title fields;
                content = content;
                url = get_set (codes "url") fields;
                external_id = get_set (codes "external_id") fields;
                metadata = message_metadata fields source_type_raw;
                content_hash = none;
                crawled_at = none;
                ingestion_status = codes "completed";
              })
        ]
      ]
    ]
  ]

  -- The body of the first `try` of `_handle_message`.
  unfoldable pub chunk_request_of : Dict Text → Result ChunkRequest
  unfolding get_set request_of
  chunk_request_of fields = elim (get_set (codes "source_type") fields) [
    | none ↦ err (builtin key_error (codes "source_type"))
    | some source_type_raw ↦ request_of fields source_type_raw
  ]
