-- ===== src/Client/Tokenizer.antt =====
-- tiktoken's encoder, of which the program uses `encode` and `decode`.
use ject6_4th_ai_analyzer.Base.{List, Text}

pub record Encoder : Type 1 where
  pub Token : Type 0
  pub encode : Text → List Token
  pub decode : List Token → Text
