-- ===== src/Connection/Buffer.antt =====
-- bytes::BytesMut as far as src/connection/tcp.rs uses it: what its operations leave in a buffer, as
-- its documentation states it. How much capacity they allocate is the crate's affair.
pub mod Sample
use pyrsedis.Prelude.{ℕ, ◌+◌, ◌≤◌, ◌≡◌, refl, [], ◌++◌, Bytes, length, drop, arith, length-drop}

pub record BytesMut : Type 1 where
  pub Buf : Type 0
  pub content : Buf → Bytes
  pub capacity : Buf → ℕ
  pub capacity_holds : (b : Buf) → length (content b) ≤ capacity b
  -- `split`, `extend_from_slice`, `split_to`, `reserve` and a read that appends: what stays in the
  -- buffer.
  pub split : Buf → Buf
  pub content-split : (b : Buf) → content (split b) ≡ []
  pub extend : Buf → Bytes → Buf
  pub content-extend : (b : Buf) (s : Bytes) → content (extend b s) ≡ content b ++ s
  pub split_to : ℕ → Buf → Buf
  pub content-split_to :
      (n : ℕ) (b : Buf) → n ≤ length (content b) → content (split_to n b) ≡ drop n (content b)
  pub reserve : ℕ → Buf → Buf
  pub content-reserve : (n : ℕ) (b : Buf) → content (reserve n b) ≡ content b
  pub reserve_room : (n : ℕ) (b : Buf) → length (content b) + n ≤ capacity (reserve n b)
