-- ===== src/Base/Errno.antt =====
-- include/errno.h: the error numbers that the modelled code returns, as the values of `-E...`.
pub data Error : Type 0 where
  einval enomem ebusy eexist eintr etime enoent : Error

-- What an `int` function returns: EOK, or an error.
pub data Result : Type 0 where
  eok : Result
  fails : Error → Result
