-- ===== src/Mime/Table.antt =====
-- src/mime_map.cpp: the table of types and extensions.
mod First
mod Second
mod Third
mod Fourth
mod Fifth
use Prim.Native.String.{String}
use tcpflow.Base.{List, ◌++◌}
use tcpflow.Mime.Table.First.{first_entries}
use tcpflow.Mime.Table.Second.{second_entries}
use tcpflow.Mime.Table.Third.{third_entries}
use tcpflow.Mime.Table.Fourth.{fourth_entries}
use tcpflow.Mime.Table.Fifth.{fifth_entries}

-- `PopulateMimeMap`: the assignments, in order.
abbrev pub entries : List (String × String)
entries =
    first_entries ++ (second_entries ++ (third_entries ++ (fourth_entries ++ (fifth_entries))))
