-- ===== src/Storage/Pool.antt =====
-- src/goblin/storage/tier_manager.hpp and tier_manager.cpp, class Pool: the files of the objects in
-- the directories of a pool. An open file is the number of its inode, from 1 on, and 0 stands for the
-- descriptor -1; closing and moving descriptors changes nothing here. What the calls of the system
-- answer is chosen by the environment: `grants` holds, for each `openat`, `renameat` and `unlinkat`,
-- whether it is let through; a call that finds no answer fails.
use Prim.Native.String.{String, ◌++◌ as append_text}
use goblin_store.Prelude.{
  ℕ, zero, suc, ◌+◌, ◌*◌, Bool, true, false, not, ◌==◌, if◌then◌else◌, Option, none, some, List, [],
  ◌∷◌, ◌++◌, length, get_or, set, replicate, ℕ_discrete,
}
use goblin_store.Prelude.Assoc.{find, insert, erase}
use goblin_store.Prelude.Bytes.{Bytes}
use goblin_store.Common.Config.{is_empty}
use goblin_store.Common.Errors.{Result, Status, value, error, done, err, io_error, invalid_argument}
use goblin_store.Crypto.Digest.{Digest, bucket, hex}
use goblin_store.Storage.DrivePool.{DrivePool, drive_of, files_used}
use goblin_store.Storage.StripedIo.{Disk}

pub record FileName : Type 0 where
  pub drive : ℕ
  pub name : Bytes

unfoldable pub FileName-discrete : Discrete FileName
FileName-discrete = hlevel ℕ_discrete

-- The directories of a pool with the bytes of their files. `next` is the next unused inode.
pub record Volume : Type 0 where
  pub names : List (FileName × ℕ)
  pub next : ℕ
  pub grants : List Bool
  pub answers : List ℕ
  pub disk : Disk

pub record Pool : Type 0 where
  pub drives : DrivePool
  pub direct_io : Bool

-- The answer of the next call of the system.
unfoldable pub grant : Volume → Volume × Bool
grant v = elim (v.grants) [ [] ↦ (v, false) | ok ∷ rest ↦ (record v { grants = rest }, ok) ]

-- `::openat` of a name that is there, or not.
unfoldable pub open_name : Volume → FileName → Bool → Option ℕ → Volume × ℕ
open_name v f create (some inode) = (v, inode)
open_name v f true none =
    (record v { names = insert FileName-discrete f v.next v.names; next = v.next + 1 }, v.next)
open_name v f false none = (v, 0)

unfoldable pub openat : Volume → FileName → Bool → Volume × ℕ
unfolding grant open_name
openat v f create =
    let (v', ok) = grant v in
    if ok then open_name v' f create (find FileName-discrete f v'.names) else (v', 0)

unfoldable pub renameat : Volume → FileName → FileName → Volume × Bool
unfolding grant
renameat v from to =
    let (v', ok) = grant v in
    elim (find FileName-discrete from v'.names) [
      | none ↦ (v', false)
      | some inode ↦
          if ok
          then (
            record v' {
              names = insert FileName-discrete to inode (erase FileName-discrete from v'.names);
            },
            true,
          )
          else (v', false)
    ]

unfoldable pub unlinkat : Volume → FileName → Volume
unfolding grant
unlinkat v f =
    let (v', ok) = grant v in
    if ok then record v' { names = erase FileName-discrete f v'.names } else v'

-- The drive of chunk `c` of an object; `c * stripe` is less than the bytes of the tier.
unfoldable pub chunk_drive : Pool → Digest → ℕ → ℕ
chunk_drive p d c = drive_of p.drives (bucket d) (c * p.drives.stripe_unit)

abbrev pub create_failed : String
create_failed = "openat (create) object file"

abbrev pub open_failed : String
open_failed = "openat object file (not found?)"

unfoldable pub add_fd : Bool → List ℕ → ℕ → Volume × ℕ → Volume × Result (List ℕ)
add_fd create fds d (v, fd) =
    if fd == 0
    then (v, err io_error (if create then create_failed else open_failed))
    else (v, value (set fds d fd))

-- One round of the loop of `open_object`.
unfoldable pub open_chunk :
    Pool → Digest → Bytes → Bool → ℕ → Volume → List ℕ → Volume × Result (List ℕ)
unfolding add_fd openat chunk_drive
open_chunk p digest name create c v fds =
    let d = chunk_drive p digest c in
    let opened = openat v (record { drive = d; name = name }) create in
    if not (get_or fds d 0 == 0) then (v, value fds) else add_fd create fds d opened

-- The rounds that are left, and the chunk that is next.
unfoldable pub open_chunks :
    ℕ → Pool → Digest → Bytes → Bool → ℕ → Volume → List ℕ → Volume × Result (List ℕ)
open_chunks zero p digest name create c v fds = (v, value fds)
open_chunks (suc n) p digest name create c v fds =
    let r = open_chunk p digest name create c v fds in
    elim (r.1) [
      | value fds' ↦ open_chunks n p digest name create (c + 1) r.0 fds'
      | error e ↦ (r.0, error e)
    ]

unfoldable pub open_object : Pool → Volume → Digest → ℕ → Bool → Bytes → Volume × Result (List ℕ)
unfolding open_chunks
open_object p v digest tier_bytes create name_suffix =
    open_chunks (files_used p.drives tier_bytes) p digest (hex digest ++ name_suffix) create 0 v
      (replicate p.drives.num_drives 0)

unfoldable pub publish_chunks : ℕ → Pool → Digest → Bytes → ℕ → Volume → Volume × Status
publish_chunks zero p digest tmp c v = (v, done)
publish_chunks (suc n) p digest tmp c v =
    let d = chunk_drive p digest c in
    let r =
      renameat v (record { drive = d; name = tmp }) (record { drive = d; name = hex digest }) in
    elim (r.1) [
      | true ↦ publish_chunks n p digest tmp (c + 1) r.0
      | false ↦ (r.0, err io_error "renameat (publish) object file")
    ]

unfoldable pub publish : Pool → Volume → Digest → ℕ → Bytes → Volume × Status
unfolding publish_chunks
publish p v digest tier_bytes name_suffix =
    publish_chunks (files_used p.drives tier_bytes) p digest (hex digest ++ name_suffix) 0 v

unfoldable pub unlink_chunks : ℕ → Pool → Digest → Bytes → ℕ → Volume → Volume
unlink_chunks zero p digest name c v = v
unlink_chunks (suc n) p digest name c v =
    unlink_chunks n p digest name (c + 1)
      (unlinkat v (record { drive = chunk_drive p digest c; name = name }))

unfoldable pub unlink_object : Pool → Volume → Digest → ℕ → Bytes → Volume
unfolding unlink_chunks
unlink_object p v digest tier_bytes name_suffix =
    unlink_chunks (files_used p.drives tier_bytes) p digest (hex digest ++ name_suffix) 0 v

-- `::open` of each directory, with what it answers.
unfoldable pub open_dirs : List String → List Bool → Status
open_dirs [] opened = done
open_dirs (d ∷ ds) [] = err io_error (append_text "open pool dir: " d)
open_dirs (d ∷ ds) (ok ∷ opened) =
    let rest = open_dirs ds opened in
    if ok then rest else err io_error (append_text "open pool dir: " d)

unfoldable pub open_pool : List String → ℕ → Bool → List Bool → Result Pool
unfolding open_dirs
open_pool dirs stripe_unit direct_io opened =
    if is_empty dirs then err invalid_argument "empty pool" else elim (open_dirs dirs opened) [
      | error e ↦ error e
      | value _ ↦ value (record {
        drives = record { num_drives = length dirs; stripe_unit = stripe_unit };
        direct_io = direct_io;
      })
    ]
