-- ===== src/Database/Migrations.antt =====
-- migrations.go: `MigrationRunner`. `Schema` is what the database has committed: the versions in
-- `schema_migrations` and the scripts, in order. `accepts` says whether a script succeeds after those
-- that are committed, `outage` which other statements fail. A transaction that is not committed, and
-- one whose commit fails, leaves nothing.
pub mod Steps
pub mod Laws
use Prim.Native.String.{compare}
use Prim.Native.Nat.{Ordering}
use catgirl.Base.{
  ℕ, ◌+◌, ◌-◌, Bool, true, false, not, ◌&&◌, List, [], ◌∷◌, ◌++◌, Option, none, some, String,
  str_eq, Result, ok, err, wrap, unavailable, message, M, ◌>>=◌, ◌>>◌, pure, fail, wrapped, guard,
  any, has_suffix, split_first, text_length, text_take, DirEntry, if◌then◌else◌,
}
use catgirl.SortSlice.{SortSlice}

pub record Migration : Type 0 where
  pub version : String
  pub name : String
  pub sql : String

pub record Schema : Type 0 where
  pub versions : List String
  pub scripts : List String
  pub calls : ℕ
  pub outage : ℕ → Bool
  pub accepts : List String → String → Bool

pub record MigrationsDir : Type 0 where
  pub read_dir : String → Result (List DirEntry)
  pub read_file : String → String → Result String

-- `strings.TrimSuffix(name, ".sql")` of a name that has the suffix
abbrev pub version_part : String → String
version_part name = text_take (text_length name - 4) name

-- Without an underscore the whole name is both version and name.
abbrev pub named : String → String → Option (String × String) → Migration
named whole sql none = record { version = whole; name = whole; sql = sql }
named whole sql (some (version, name)) = record { version = version; name = name; sql = sql }

abbrev pub is_script : DirEntry → Bool
is_script entry = not entry.is_dir && has_suffix ".sql" entry.name

abbrev pub add_file : String → Result String → Result (List Migration) → Result (List Migration)
add_file name (err e) rest = err (wrap "failed to read migration" e)
add_file name (ok sql) (err e) = err e
add_file name (ok sql) (ok rest) =
    ok (named (version_part name) sql (split_first "_" (version_part name)) ∷ rest)

unfoldable pub read_migrations : MigrationsDir → String → List DirEntry → Result (List Migration)
read_migrations dir path [] = ok []
read_migrations dir path (entry ∷ rest) =
    let others = read_migrations dir path rest in
    if is_script entry then add_file entry.name (dir.read_file path entry.name) others else others

abbrev pub older : Migration → Migration → Bool
older a b = elim (compare a.version b.version) [ Ordering.lt ↦ true | _ ↦ false ]

abbrev pub sorted_by : SortSlice Migration → Result (List Migration) → Result (List Migration)
sorted_by sorter (ok found) = ok (sorter.sort older found)
sorted_by sorter (err e) = err e

abbrev pub load_listing :
    SortSlice Migration → MigrationsDir → String → Result (List DirEntry) → Result (List Migration)
load_listing sorter dir path (err e) = err (wrap "failed to read migrations directory" e)
load_listing sorter dir path (ok entries) = sorted_by sorter (read_migrations dir path entries)

unfoldable pub load_migrations :
    SortSlice Migration → MigrationsDir → String → Result (List Migration)
unfolding read_migrations
load_migrations sorter dir path = load_listing sorter dir path (dir.read_dir path)

-- A statement is counted, and fails if the database says so.
abbrev pub statement : {A : Type 0} → (Schema → Result A × Schema) → M Schema A
statement body s =
    let counted = record s { calls = s.calls + 1 } in
    if s.outage s.calls then (err unavailable, counted) else body counted

abbrev pub is_version : String → String → Bool
is_version version row = str_eq row version

-- The table is made if it is missing, and read.
unfoldable pub is_applied : String → M Schema Bool
is_applied version = do
  wrapped "failed to create schema_migrations table" (statement λ s. (ok tt, s))
  wrapped "failed to check migration status"
      (statement λ s. (ok (any (is_version version) s.versions), s))

-- The script, in a transaction: it changes nothing before the commit.
abbrev pub exec_script : String → M Schema (Unit {0})
exec_script sql =
    statement
      λ s. if s.accepts s.scripts sql then (ok tt, s) else (err (message "script failed"), s)

abbrev pub commit : Migration → M Schema (Unit {0})
commit m = statement λ s.
    (ok tt, record s { versions = s.versions ++ m.version ∷ []; scripts = s.scripts ++ m.sql ∷ [] })

unfoldable pub apply : Migration → M Schema (Unit {0})
apply m = do
  wrapped "failed to begin transaction for migration" (statement λ s. (ok tt, s))
  wrapped "failed to execute migration" (exec_script m.sql)
  wrapped "failed to record migration" (statement λ s. (ok tt, s))
  wrapped "failed to commit migration" (commit m)

abbrev pub if_pending : Migration → Bool → M Schema (Unit {0})
if_pending m true = pure tt
if_pending m false = apply m

unfoldable pub run_one : Migration → M Schema (Unit {0})
unfolding is_applied apply
run_one m = do
  applied ← wrapped "failed to check migration" (is_applied m.version)
  if_pending m applied

unfoldable pub run_all : List Migration → M Schema (Unit {0})
unfolding run_one
run_all [] = pure tt
run_all (m ∷ rest) = do run_one m; run_all rest

-- `Run`: the count of tables only chooses a line of the log.
abbrev pub run_loaded : Result (List Migration) → M Schema (Unit {0})
run_loaded (err e) = fail (wrap "failed to load migrations" e)
run_loaded (ok migrations) = run_all migrations

unfoldable pub run : SortSlice Migration → MigrationsDir → String → M Schema (Unit {0})
unfolding run_all load_migrations
run sorter dir path = do
  wrapped "failed to check existing tables" (statement λ s. (ok tt, s))
  run_loaded (load_migrations sorter dir path)
