-- ===== src/Repository/Documents.antt =====
-- app/repository/document_repository.py and influencer_repository.py.
use ject6_4th_ai_analyzer.Base.{Option, List, Text}
use ject6_4th_ai_analyzer.Base.Int.{ℤ}
use ject6_4th_ai_analyzer.Domain.Enums.{SourceType}
use ject6_4th_ai_analyzer.Domain.Models.{DocumentColumns, Document, DocumentChunk, Influencer}
use ject6_4th_ai_analyzer.Core.Effects.{
  Env, Exec, call, get_document, select_document, insert_document, insert_chunks, delete_chunks,
  insert_influencer, pure, ◌>>=◌,
}

module _ (env : Env) where
  -- The row with the id that `flush` gives it.
  unfoldable pub create : DocumentColumns → Exec Document
  create columns = do
    id ← call env (insert_document columns)
    pure (record { id = id; columns = columns })

  unfoldable pub get_by_id : ℤ → Exec (Option Document)
  get_by_id document_id = call env (get_document document_id)

  unfoldable pub find_by_external_id : ℤ → SourceType → Text → Exec (Option Document)
  find_by_external_id user_id source_type external_id =
      call env (select_document user_id source_type external_id)

  unfoldable pub add_chunks : List DocumentChunk → Exec Unit
  add_chunks chunks = call env (insert_chunks chunks)

  unfoldable pub delete_chunks_by_document : ℤ → Exec Unit
  delete_chunks_by_document document_id = call env (delete_chunks document_id)

  -- `ON CONFLICT (blog_url) DO NOTHING`
  unfoldable pub upsert_influencer : Influencer → Exec Unit
  upsert_influencer row = call env (insert_influencer row)
