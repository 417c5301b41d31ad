-- ===== src/AvOutput/Indices.antt =====
-- The names of the sources, picture modes and formats, and their indices.
use entservices_inputoutput.Base.{ℤ, negsuc, [], ◌∷◌, if◌then◌else◌}
use entservices_inputoutput.AvOutput.Text.{Name, same_name}
use entservices_inputoutput.AvOutput.State.{Env, IndexMap, same_int}

-- The entry of the name, -1 where there is none.
unfoldable pub index_of : IndexMap → Name → ℤ
index_of [] n = negsuc 0
index_of ((m, i) ∷ rest) n = let other = index_of rest n in if same_name m n then i else other

-- The first name of the index, in the order of the names.
unfoldable pub name_of : IndexMap → ℤ → Name
name_of [] i = []
name_of ((m, j) ∷ rest) i = let other = name_of rest i in if same_int j i then m else other

module _ {S : Type 0} (e : Env S) where
  abbrev pub get_picture_mode_index : Name → ℤ
  get_picture_mode_index pqparam = index_of e.modes pqparam

  abbrev pub get_source_index : Name → ℤ
  get_source_index pqparam = index_of e.sources pqparam

  abbrev pub get_format_index : Name → ℤ
  get_format_index pqparam = index_of e.formats pqparam

  abbrev pub convert_source_index_to_string : ℤ → Name
  convert_source_index_to_string source = name_of e.sources source

  abbrev pub convert_video_format_to_string : ℤ → Name
  convert_video_format_to_string format = name_of e.formats format

  abbrev pub convert_picture_index_to_string : ℤ → Name
  convert_picture_index_to_string pqmode = name_of e.modes pqmode
