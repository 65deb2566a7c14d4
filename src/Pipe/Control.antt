-- ===== src/Pipe/Control.antt =====
-- kernel/src/fs/pipe.c: ioctl, poll, creation and release of the ends of a pipe.
use bleed_kernel.Common.{
  ℕ, Bool, true, false, not, ◌&&◌, ◌||◌, Option, none, some, if◌then◌else◌, ltb, ◌==◌, replicate,
  Result, ok, err, eio, enomem, efault, einval, enotty, pos, decrement, is_zero, is_nonpos,
}
use Prim.Native.Nat.{bit_and, bit_or}
use bleed_kernel.Pipe.State.{PipeState, buffer_size, wake}

-- kernel/include/user/user_poll.h
abbrev pub pollin : ℕ
pollin = 1

abbrev pub pollout : ℕ
pollout = 4

abbrev pub pollerr : ℕ
pollerr = 8

abbrev pub pollhup : ℕ
pollhup = 16

-- TTY_NONBLOCK
abbrev pub tty_nonblock : ℕ
tty_nonblock = 16

-- pipe_read_poll; the state is `none` where it is NULL.
unfoldable pub read_poll : Option PipeState → ℕ
read_poll none = pollerr
read_poll (some p) =
    let ready = if ltb 0 p.count then bit_or 0 pollin else 0 in
    if is_zero p.writers then bit_or ready pollhup else ready

-- pipe_write_poll
unfoldable pub write_poll : Option PipeState → ℕ
write_poll none = pollerr
write_poll (some p) =
    if is_zero p.readers then pollerr else if ltb p.count buffer_size then pollout else 0

-- The requests that pipe_flags_ioctl tells apart.
pub data Request : Type 0 where
  fionbio set_flags get_flags other : Request

-- The user's memory at `arg`: what copy_from_user brings in (`none` is a fault), and whether
-- copy_to_user can write there.
pub record UserArg : Type 0 where
  pub present : Bool
  pub value : Option ℕ
  pub writable : Bool

abbrev pub nonblock_of : Bool → PipeState → Bool
nonblock_of write_end p = if write_end then p.write_nonblock else p.nonblock

abbrev pub set_nonblock_of : Bool → Bool → PipeState → PipeState
set_nonblock_of write_end on p =
    if write_end then record p { write_nonblock = on } else record p { nonblock = on }

-- pipe_flags_ioctl: the result, what goes to the user, and the pipe.
unfoldable pub flags_ioctl :
    Bool → Request → UserArg → Option PipeState → Result ℕ × Option ℕ × Option PipeState
flags_ioctl write_end request arg none = (err eio, none, none)
flags_ioctl write_end request arg (some p) =
    if not arg.present then (err einval, none, some p) else elim request [
      | fionbio ↦ elim arg.value [
        | none ↦ (err efault, none, some p)
        | some on ↦ (ok 0, none, some (set_nonblock_of write_end (not (on == 0)) p))
      ]
      | set_flags ↦ elim arg.value [
        | none ↦ (err efault, none, some p)
        | some flags ↦
            (ok 0, none, some (set_nonblock_of write_end (not (bit_and flags tty_nonblock == 0)) p))
      ]
      | get_flags ↦
          if arg.writable
          then (ok 0, some (if nonblock_of write_end p then tty_nonblock else 0), some p)
          else (err efault, none, some p)
      | other ↦ (err enotty, none, some p)
    ]

-- The open modes of the ends, `f->flags & O_MODE`.
pub data Mode : Type 0 where
  rdonly wronly rdwr : Mode

-- `file_t` as far as pipe.c reads it.
pub record PipeFile : Type 0 where
  pub is_pipe : Bool
  pub has_inode : Bool
  pub mode : Mode

-- The state after memset and the two counts, in pipe_create_file_pair.
unfoldable pub fresh : PipeState
fresh = record {
  read_pos = 0;
  write_pos = 0;
  count = 0;
  readers = pos 1;
  writers = pos 1;
  nonblock = false;
  write_nonblock = false;
  wakes = 0;
  buffer = replicate buffer_size 0;
}

-- The five allocations of pipe_create_file_pair, in the order of the code: whether each succeeds.
pub record Memory : Type 0 where
  pub state : Bool
  pub read_inode : Bool
  pub write_inode : Bool
  pub read_file : Bool
  pub write_file : Bool

-- pipe_create_file_pair: on success the pipe and its two ends.
unfoldable pub create_file_pair : Bool → Memory → Result (PipeState × PipeFile × PipeFile)
create_file_pair outputs m =
    if not outputs
    then err einval
    else if not m.state
    then err enomem
    else if m.read_inode && (m.write_inode && (m.read_file && m.write_file))
    then ok (
      fresh,
      record { is_pipe = true; has_inode = true; mode = rdonly },
      record { is_pipe = true; has_inode = true; mode = wronly },
    )
    else err enomem

-- pipe_set_nonblock
unfoldable pub set_nonblock : PipeFile → PipeState → PipeState
set_nonblock f p = elim f.mode [
  | wronly ↦ record p { write_nonblock = true }
  | _ ↦ record p { nonblock = true }
]

-- What is left of the pipe after a release: `freed` stands for the destroyed wait queue and the
-- freed state.
pub data Released : Type 0 where
  untouched : Option PipeState → Released
  kept : PipeState → Released
  freed : Released

abbrev pub drop_end : Mode → PipeState → PipeState
drop_end rdonly p = record p { readers = decrement p.readers }
drop_end wronly p = record p { writers = decrement p.writers }
drop_end rdwr p = p

-- pipe_file_release; the file is `none` where `f` is NULL.
unfoldable pub file_release : Option PipeFile → Option PipeState → Released
file_release none state = untouched state
file_release (some f) state =
    if not f.is_pipe || not f.has_inode then untouched state else elim state [
      | none ↦ untouched none
      | some p ↦
          let p' = drop_end f.mode p in
          if is_nonpos p'.readers && is_nonpos p'.writers then freed else kept (wake p')
    ]
