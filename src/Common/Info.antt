-- ===== src/Common/Info.antt =====
-- app/common/common_lib.h: the structures that describe what is sent.
use study_and_development_of.Base.{ℕ, ℤ, Bytes}

abbrev pub timestamp_len : ℕ
timestamp_len = 16

-- struct next_file
pub record NextFile : Type 0 where
  pub first : ℤ
  pub last : ℤ
  pub count : ℤ

-- struct next_dir
pub record NextDir : Type 0 where
  pub first : Bytes
  pub last : Bytes
  pub count : ℤ
  pub logger_n : ℤ

-- struct tr_info
pub record TrInfo : Type 0 where
  pub f : NextFile
  pub d : NextDir
