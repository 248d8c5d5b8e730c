-- ===== src/Tests/Logs.antt =====
-- Tests of the model of src/log/log_formatter.cc.
use restful_cweb.Prelude.{◌≡◌, List, [], ◌∷◌, codes, some, arith}
use restful_cweb.Log.Formatter.{LogInfo, LogFormatItem, warn, parse_logpattern, format}
use restful_cweb.Log.Formatter.Rendered.{
  Pieces, level, content, rendered, parse_logpattern-rendered,
}

abbrev line : LogInfo
line = record {
  log_level = warn;
  thread_id = codes "7";
  log_module = codes "m";
  log_tag = codes "t";
  log_content = codes "hi";
}

abbrev pieces : Pieces
pieces = (codes "[", level) ∷ (codes "] ", content) ∷ []

parse_logpattern-rendered_example :
    (items : List LogFormatItem) × (parse_logpattern (codes "[%l] %c!") ≡ some items)
    × (format [] line items ≡ codes "[WARN] hi")
unfolding rendered
parse_logpattern-rendered_example =
    parse_logpattern-rendered [] line pieces (codes "!") (ground arith) (ground arith)
