-- ===== src/Runtime/ToolLoader.antt =====
-- tool_loader.go: `ToolLoader`. The file system and `encoding/json` are the parameter `disk`. The map
-- of tools is a list with one tool for each name; where the source ranges over it, the order in which
-- it does is an argument. The ticker of `watchLoop` calls `load_tools` again and again.
pub mod Laws
use catgirl.Base.{
  Bool, true, false, not, ◌&&◌, ◌||◌, List, [], ◌∷◌, ◌++◌, Option, none, some, String, str_eq,
  Result, ok, err, Error, wrap, invalid_json, keep, any, DirEntry, has_suffix, if◌then◌else◌,
}
use catgirl.Models.{Json}
use catgirl.Llm.Messages.{Tool}

pub data Listing : Type 0 where
  entries : List DirEntry → Listing
  missing : Listing
  unreadable : Error → Listing

-- `read_file` is given the directory and the name that `filepath.Join` puts together. `as_tool` reads
-- a text as an `llm.Tool` with its `type`, `as_function` as the definition of a function alone, and
-- `as_object` is what the parameters are as an object, after `json.Marshal` and `json.Unmarshal`.
pub record Disk : Type 0 where
  pub read_dir : String → Listing
  pub make_dir : String → Result (Unit {0})
  pub read_file : String → String → Result String
  pub as_tool : String → Option (String × Tool)
  pub as_function : String → Option Tool
  pub as_object : Json → Json

abbrev pub is_named : String → Tool → Bool
is_named name tool = str_eq tool.name name

-- `newTools[tool.Function.Name] = tool`
abbrev pub put_tool : Tool → List Tool → List Tool
put_tool tool tools = keep (λ other. not (is_named tool.name other)) tools ++ tool ∷ []

module _ (disk : Disk) (tools_dir : String) where
  abbrev pub function_of : Option Tool → Result Tool
  function_of none = err (wrap "failed to parse tool JSON" invalid_json)
  function_of (some f) = ok (record f { parameters = disk.as_object f.parameters })

  abbrev pub parse_tool : String → Option (String × Tool) → Result Tool
  parse_tool text none = function_of (disk.as_function text)
  parse_tool text (some (kind, tool)) =
      if str_eq kind "function" then ok tool else function_of (disk.as_function text)

  abbrev pub parse_file : Result String → Result Tool
  parse_file (err e) = err (wrap "failed to read file" e)
  parse_file (ok text) = parse_tool text (disk.as_tool text)

  unfoldable pub load_tool_file : String → Result Tool
  load_tool_file name = parse_file (disk.read_file tools_dir name)

  abbrev pub is_tool_file : DirEntry → Bool
  is_tool_file entry = not entry.is_dir && has_suffix ".json" entry.name

  -- A file that cannot be loaded is logged and skipped.
  abbrev pub add_loaded : Result Tool → List Tool → List Tool
  add_loaded (err e) tools = tools
  add_loaded (ok tool) tools = put_tool tool tools

  unfoldable pub load_entries : List DirEntry → List Tool → List Tool
  load_entries [] tools = tools
  load_entries (entry ∷ rest) tools =
      load_entries rest
        (if is_tool_file entry then add_loaded (load_tool_file entry.name) tools else tools)

  abbrev pub created : Result (Unit {0}) → Result (Unit {0})
  created (ok _) = ok tt
  created (err e) = err (wrap "failed to create tools directory" e)

  -- The second argument is what was loaded before.
  abbrev pub load_listing : Listing → List Tool → Result (Unit {0}) × List Tool
  load_listing (entries found) tools = (ok tt, load_entries found [])
  load_listing missing tools = (created (disk.make_dir tools_dir), tools)
  load_listing (unreadable e) tools = (err (wrap "failed to read tools directory" e), tools)

  unfoldable pub load_tools : List Tool → Result (Unit {0}) × List Tool
  unfolding load_entries load_tool_file
  load_tools tools = load_listing (disk.read_dir tools_dir) tools

abbrev pub is_allowed : List String → Tool → Bool
is_allowed allowed_names tool = any (λ name. str_eq name tool.name) allowed_names

-- Both return the tools in the order in which the loop meets them.
unfoldable pub get_tools : List Tool → List Tool
get_tools order = order

unfoldable pub get_tools_by_name : List Tool → List String → List Tool
get_tools_by_name order [] = order
get_tools_by_name order (name ∷ names) = keep (is_allowed (name ∷ names)) order
