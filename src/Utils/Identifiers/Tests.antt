-- ===== src/Utils/Identifiers/Tests.antt =====
-- Quoted names and qualified tables at concrete inputs.
use Prim.Native.String.{◌++◌}
use dashboard_template_api.Common.{◌≡◌, refl, some, arith}
use dashboard_template_api.Utils.Identifiers.{quote_ident, qualified_table}
use dashboard_template_api.Utils.Identifiers.Quoting.{read_ident, read_ident-quote_ident}

quoted : quote_ident "a\"?b" ≡ "\"a\"\"?b\""
unfolding quote_ident
quoted = refl

nested : qualified_table "c" "sales.europe" "t" ≡ "\"c\".\"sales\".\"europe\".\"t\""
unfolding qualified_table
nested = refl

read_ident-quote_ident_example :
    read_ident (quote_ident "x\" OR 1=1 --" ++ " = ?") ≡ some ("x\" OR 1=1 --", " = ?")
read_ident-quote_ident_example = read_ident-quote_ident "x\" OR 1=1 --" " = ?" (omega arith)
