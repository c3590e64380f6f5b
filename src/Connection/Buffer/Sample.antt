-- ===== src/Connection/Buffer/Sample.antt =====
-- A buffer that allocates what is asked, for the tests.
use pyrsedis.Prelude.{ℕ, ◌+◌, refl, [], ◌++◌, Bytes, length, drop, arith}
use pyrsedis.Connection.Buffer.{BytesMut}

-- The content, and the capacity past it.
abbrev pub sample_buffer : BytesMut
sample_buffer = record {
  Buf = Bytes × ℕ;
  content = λ b. b.0;
  capacity = λ b. length b.0 + b.1;
  capacity_holds = λ b. omega arith;
  split = λ b. ([], b.1);
  content-split = λ b. refl;
  extend = λ b s. (b.0 ++ s, b.1);
  content-extend = λ b s. refl;
  split_to = λ n b. (drop n b.0, b.1);
  content-split_to = λ n b h. refl;
  reserve = λ n b. (b.0, b.1 + n);
  content-reserve = λ n b. refl;
  reserve_room = λ n b. omega arith;
}
