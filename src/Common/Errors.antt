-- ===== src/Common/Errors.antt =====
-- kernel/include/user/errno.h: the error numbers that the modelled calls return. A call that
-- returns `-EINVAL` in C returns `err einval` here, and one that returns a count or 0 `ok`.
pub data Errno : Type 0 where
  eperm enoent eintr eio eagain enomem efault eexist einval enotty epipe etimedout ebadf : Errno

pub data Result {ℓ} (A : Type ℓ) : Type ℓ where
  ok : A → Result A
  err : Errno → Result A
