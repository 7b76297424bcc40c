-- ===== src/Auth/Errors.antt =====
-- The exceptions of `UserAuthRepository` (knowledge/auth/repository.py) that the modules of its
-- tables share: `integrity_error` is the database's own, and `key_error` says that a row is missing.

pub data AuthError : Type 0 where
  value_error key_error integrity_error assertion_error : AuthError
