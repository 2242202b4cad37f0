-- ===== src/Idmap/Kernel.antt =====
-- The maps of the running system: getFromShadow, getFromProc, CurrentIdmapSet and Usable. The files
-- are parameters: the host's record holds the lines that a bufio.Scanner gives of each.
use mercuryc.Base.{
  ℕ, Bytes, List, [], ◌∷◌, ◌++◌, Option, none, some, Bool, true, false, ◌&&◌, ◌||◌, not, ◌==◌, leb,
  if◌then◌else◌, ◌>>=◌, split, bytes_eq, is_empty, to_lower,
}
use mercuryc.Base.Word.{add, sub}
use mercuryc.Strconv.{parse_uint32}
use mercuryc.Idmap.{IdRange, IdmapEntry, contains}
use mercuryc.Idmap.Set.{IdmapSet, extend, valid_ranges}

-- A file that is missing, one that exists and cannot be opened, and the lines of one that can.
pub data File : Type 0 where
  missing : File
  unreadable : File
  lines : List Bytes → File

unfoldable pub path_exists : File → Bool
path_exists missing = false
path_exists _ = true

-- What the code reads of the system: what LookPath finds for two programs, and four files.
pub record Host : Type 0 where
  pub newuidmap : Bytes
  pub newgidmap : Bytes
  pub subuid : File
  pub subgid : File
  pub uid_map : File
  pub gid_map : File

-- The part of a line before a comment: strings.Split(line, "#")[0].
unfoldable pub before_comment : Bytes → Bytes
before_comment line = elim (split line b'#') [ [] ↦ [] | s ∷ _ ↦ s ]

-- The loop over the lines of a file. What is left of a line before its comment is skipped if it is
-- empty; else `read` refuses the file (`none`), skips the line (`some none`), or gives an entry.
unfoldable pub read_lines :
    {A : Type 0} → (Bytes → Option (Option A)) → List Bytes → Option (List A)
unfolding before_comment
read_lines read [] = some []
read_lines read (line ∷ ls) =
    let s = before_comment line in
    let rest = read_lines read ls in
    if is_empty s then rest else (do
      found ← read s
      entries ← rest
      some (elim found [ none ↦ entries | some a ↦ a ∷ entries ]))

-- A file with no entry is an error too.
unfoldable pub some_entries : {A : Type 0} → Option (List A) → Option (List A)
some_entries none = none
some_entries (some []) = none
some_entries (some (a ∷ rest)) = some (a ∷ rest)

unfoldable pub get_from : {A : Type 0} → (Bytes → Option (Option A)) → File → Option (List A)
unfolding read_lines some_entries
get_from read (lines ls) = some_entries (read_lines read ls)
get_from read _ = none

-- strings.EqualFold, for texts whose letters have ASCII cases alone.
unfoldable pub equal_fold : Bytes → Bytes → Bool
equal_fold s t = bytes_eq (to_lower s) (to_lower t)

-- The numbers of two fields; an error skips the line.
unfoldable pub two_numbers : Bytes → Bytes → Option (ℕ × ℕ)
two_numbers a b = do start ← parse_uint32 a; size ← parse_uint32 b; some (start, size)

unfoldable pub shadow_fields : Bytes → List Bytes → Option (Option (ℕ × ℕ))
unfolding two_numbers equal_fold
shadow_fields username (name ∷ start ∷ size ∷ more) =
    some (if equal_fold name username then two_numbers start size else none)
shadow_fields username _ = none

-- One line of /etc/subuid or /etc/subgid.
unfoldable pub read_shadow : Bytes → Bytes → Option (Option (ℕ × ℕ))
unfolding shadow_fields
read_shadow username s = shadow_fields username (split s b':')

unfoldable pub get_from_shadow : File → Bytes → Option (List (ℕ × ℕ))
unfolding get_from read_shadow
get_from_shadow file username = get_from (read_shadow username) file

-- The white space of strings.Fields among the ASCII bytes.
unfoldable pub is_space : ℕ → Bool
is_space c = c == b' ' || (leb 9 c && leb c 13)

unfoldable pub fields_from : Bytes → Bytes → List Bytes
unfolding is_space
fields_from cur [] = if is_empty cur then [] else cur ∷ []
fields_from cur (c ∷ s) = elim (is_space c) [
  | true ↦ if is_empty cur then fields_from [] s else cur ∷ fields_from [] s
  | false ↦ fields_from (cur ++ c ∷ []) s
]

-- strings.Fields
unfoldable pub fields : Bytes → List Bytes
unfolding fields_from
fields s = fields_from [] s

unfoldable pub three_numbers : Bytes → Bytes → Bytes → Option (ℕ × ℕ × ℕ)
three_numbers a b c = do
  start ← parse_uint32 a
  host ← parse_uint32 b
  size ← parse_uint32 c
  some (start, host, size)

unfoldable pub proc_fields : List Bytes → Option (Option (ℕ × ℕ × ℕ))
unfolding three_numbers
proc_fields (start ∷ host ∷ size ∷ more) = some (three_numbers start host size)
proc_fields _ = none

-- One line of /proc/self/uid_map or gid_map.
unfoldable pub read_proc : Bytes → Option (Option (ℕ × ℕ × ℕ))
unfolding fields proc_fields
read_proc s = proc_fields (fields s)

unfoldable pub get_from_proc : File → Option (List (ℕ × ℕ × ℕ))
unfolding get_from read_proc
get_from_proc file = get_from read_proc file

-- The entries that one map of the kernel gives, for uids or for gids, behind those of `m`.
unfoldable pub extend_all : Bool → IdmapSet → List (ℕ × ℕ × ℕ) → IdmapSet
unfolding extend
extend_all uids m [] = m
extend_all uids m ((nsid, hostid, maprange) ∷ entries) =
    extend_all uids
      (extend m (record {
        isuid = uids;
        isgid = not uids;
        hostid = hostid;
        nsid = nsid;
        maprange = maprange;
      }))
      entries

-- The half of CurrentIdmapSet for one map; with no file there is an empty range in its place.
unfoldable pub read_map : Bool → IdmapSet → File → Option IdmapSet
unfolding extend_all get_from_proc path_exists
read_map uids m file =
    if path_exists file
    then (do entries ← get_from_proc file; some (extend_all uids m entries))
    else some (extend_all uids m ((0, 0, 0) ∷ []))

unfoldable pub current_idmap_set : Host → Option IdmapSet
unfolding read_map
current_idmap_set host = do m ← read_map true [] host.uid_map; read_map false m host.gid_map

-- Some range with the flag holds the first and the last host id of the entry.
unfoldable pub fits : (IdRange → Bool) → IdmapEntry → List IdRange → Bool
fits kind e [] = false
fits kind e (r ∷ ranges) =
    kind r && (contains r e.hostid && contains r (sub (add e.hostid e.maprange) 1))
    || fits kind e ranges

-- IdmapEntry.Usable: true for no error.
unfoldable pub usable : Host → IdmapEntry → Bool
unfolding fits
usable host e = elim (current_idmap_set host) [
  | none ↦ false
  | some m ↦
      let ranges = valid_ranges m in
      (not e.isuid || fits (λ r. r.isuid) e ranges) && (not e.isgid || fits (λ r. r.isgid) e ranges)
]

-- IdmapSet.Usable
unfoldable pub set_usable : Host → IdmapSet → Bool
unfolding usable
set_usable host [] = true
set_usable host (e ∷ m) = usable host e && set_usable host m
