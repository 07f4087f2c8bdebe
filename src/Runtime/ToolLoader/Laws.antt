-- ===== src/Runtime/ToolLoader/Laws.antt =====
-- tool_loader.go: which tools are offered after the directory has been read.
use catgirl.Base.{
  ◌≡◌, refl, ap, sym, ◌∙◌, Bool, true, false, not, List, [], ◌∷◌, ◌++◌, Option, none, some, inl,
  inr, String, str_eq, eq_iff, Result, ok, err, find, keep, any, DirEntry, if◌then◌else◌,
  Bool-cases,
}
use catgirl.Llm.Messages.{Tool}
use catgirl.Repository.Laws.{find-append_missing, find-keep}
use catgirl.Runtime.ToolLoader.{
  Disk, entries, load_listing, is_named, put_tool, is_tool_file, load_tool_file, add_loaded,
  load_entries, load_tools, is_allowed, get_tools_by_name,
}

-- The last tool with a name, among the files that can be loaded; `so_far` if there is none.
abbrev pub named_or : String → Result Tool → Option Tool → Option Tool
named_or name (err e) so_far = so_far
named_or name (ok tool) so_far = if is_named name tool then some tool else so_far

abbrev pub last_tool : Disk → String → String → List DirEntry → Option Tool → Option Tool
last_tool disk dir name [] so_far = so_far
last_tool disk dir name (entry ∷ rest) so_far = last_tool disk dir name rest (
    if is_tool_file disk dir entry
    then named_or name (load_tool_file disk dir entry.name) so_far
    else so_far)

find-append_other :
    (p : Tool → Bool) (xs : List Tool) (x : Tool) → p x ≡ false → find p (xs ++ x ∷ []) ≡ find p xs
find-append_other p [] x e = rw e refl
find-append_other p (y ∷ ys) x e = elim (Bool-cases (p y)) [
  | inl f ↦ rw f refl
  | inr f ↦ rw f (find-append_other p ys x e)
]

find-keep-none :
    (p q : Tool → Bool) (xs : List Tool)
    → ((x : Tool) → p x ≡ true → q x ≡ false)
    → find p (keep q xs) ≡ none
find-keep-none p q [] drop = refl
find-keep-none p q (x ∷ xs) drop = elim (Bool-cases (q x)) [
  | inr e ↦ rw e (find-keep-none p q xs drop)
  | inl e ↦ elim (Bool-cases (p x)) [
    | inl f ↦ cc (e, drop x f)
    | inr f ↦ rw (e, f) (find-keep-none p q xs drop)
  ]
]

same_name : (t : Tool) (name : String) → is_named name t ≡ true → t.name ≡ name
same_name t name e = (eq_iff t.name name).0 e

find-put_tool :
    (name : String) (t : Tool) (tools : List Tool)
    → find (is_named name) (put_tool t tools)
      ≡ (if is_named name t then some t else find (is_named name) tools)
find-put_tool name t tools = elim (Bool-cases (is_named name t)) [
  | inl e ↦ rw e (
      find-append_missing (is_named name) _ t
        (find-keep-none (is_named name) (λ other. not (is_named t.name other)) tools
          (λ x h.
            ap not ((eq_iff x.name t.name).1 (same_name x name h ∙ sym (same_name t name e)))))
        e)
  | inr e ↦ rw e (
      find-append_other (is_named name) _ t e
      ∙ find-keep (is_named name) (λ other. not (is_named t.name other)) tools
          (λ x h. elim (Bool-cases (is_named t.name x)) [
            | inr g ↦ rw g refl
            | inl g ↦
                cc (e, (eq_iff t.name name).1 (sym (same_name x t.name g) ∙ same_name x name h))
          ]))
]

module _ (disk : Disk) (dir name : String) where
  find-add_loaded :
      (r : Result Tool) (tools : List Tool)
      → find (is_named name) (add_loaded disk dir r tools)
        ≡ named_or name r (find (is_named name) tools)
  find-add_loaded (err e) tools = refl
  find-add_loaded (ok tool) tools = find-put_tool name tool tools

  find-load_entries :
      (found : List DirEntry) (tools : List Tool)
      → find (is_named name) (load_entries disk dir found tools)
        ≡ last_tool disk dir name found (find (is_named name) tools)
  unfolding load_entries
  find-load_entries [] tools = refl
  find-load_entries (entry ∷ rest) tools = elim (Bool-cases (is_tool_file disk dir entry)) [
    | inr e ↦ rw e (find-load_entries rest tools)
    | inl e ↦ rw e (
        find-load_entries rest (add_loaded disk dir (load_tool_file disk dir entry.name) tools)
        ∙ ap (last_tool disk dir name rest)
            (find-add_loaded (load_tool_file disk dir entry.name) tools))
  ]

-- Whether a name may be offered: no names at all ask for every tool.
abbrev pub is_asked : List String → String → Bool
is_asked [] name = true
is_asked (n ∷ names) name = any (λ allowed. str_eq allowed name) (n ∷ names)

find-get_tools_by_name :
    (order : List Tool) (allowed : List String) (name : String)
    → find (is_named name) (get_tools_by_name order allowed)
      ≡ (if is_asked allowed name then find (is_named name) order else none)
unfolding get_tools_by_name
find-get_tools_by_name order [] name = refl
find-get_tools_by_name order (n ∷ names) name =
    let asked = λ (s : String). any (λ allowed. str_eq allowed s) (n ∷ names) in
    elim (Bool-cases (asked name)) [
      | inl e ↦ rw e (
          find-keep (is_named name) (is_allowed (n ∷ names)) order
            (λ x h. ap asked (same_name x name h) ∙ e))
      | inr e ↦ rw e (
          find-keep-none (is_named name) (is_allowed (n ∷ names)) order
            (λ x h. ap asked (same_name x name h) ∙ e))
    ]

-- After a pass over a directory that can be listed, a name that is asked for is offered exactly if a
-- file defines it, as the last such file does, and a name that is not asked for is not; asking for no
-- names asks for all. This holds in whatever order the map yields its entries.
pub get_tools_by_name-offers :
    (disk : Disk) (dir : String) (found : List DirEntry) (before order : List Tool)
    (allowed : List String)
    → disk.read_dir dir ≡ entries found
    → ((n : String) → find (is_named n) order ≡ find (is_named n) (load_tools disk dir before).1)
    → (name : String)
    → ((load_tools disk dir before).0 ≡ ok tt)
      × (find (is_named name) (get_tools_by_name order allowed)
          ≡ (if is_asked allowed name then last_tool disk dir name found none else none))
unfolding load_tools
get_tools_by_name-offers disk dir found before order allowed listed same name =
    let loaded : find (is_named name) order ≡ last_tool disk dir name found none =
      same name
      ∙ ap (λ l. find (is_named name) (load_listing disk dir l before).1) listed
      ∙ find-load_entries disk dir name found [] in
    (
      ap (λ l. (load_listing disk dir l before).0) listed,
      find-get_tools_by_name order allowed name
          ∙ ap (λ o. if is_asked allowed name then o else none) loaded,
    )
