-- ===== src/Base/Rc.antt =====
-- The C return codes: 0, or a negated errno. The numbers behind the names are the C library's,
-- and the code only compares them.
use Prim.Native.Nat.{ℕ}
use rtbus.Base.{Bool, true, false}

pub data Errno : Type 0 where
  enoent : Errno
  eio : Errno
  enomem : Errno
  ebusy : Errno
  enodev : Errno
  einval : Errno
  efbig : Errno
  eintr : Errno
  enosys : Errno
  enodata : Errno
  ebadmsg : Errno
  emsgsize : Errno
  enotsup : Errno
  etimedout : Errno
  ecanceled : Errno
  ealready : Errno
  eprotonosupport : Errno
  enotconn : Errno
  -- a code that a driver or the kernel returns
  other : ℕ → Errno

pub data Rc : Type 0 where
  ok : Rc
  err : Errno → Rc

abbrev pub is_ok : Rc → Bool
is_ok ok = true
is_ok (err c) = false
