-- ===== src/Utils/Columns/Tests.antt =====
-- A known column beside a value that is no name.
use dashboard_template_api.Common.{String}
use dashboard_template_api.Utils.FilterTree.Input.{Value}

abbrev show_nothing : Value → String
show_nothing v = ""
