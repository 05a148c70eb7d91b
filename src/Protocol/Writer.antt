-- ===== src/Protocol/Writer.antt =====
-- A byte sink under `AsyncWriteExt`: a writer appends to what was written, and what a failed
-- writer had written before it failed stays written.
use juicity_rs.Base.{◌++◌, Bool, Bytes, Result, ok, err, ensure}
use juicity_rs.Protocol.Wire.{Error}

abbrev pub Writer : Type 0
Writer = Bytes → Bytes × Result Error (Unit {0})

-- The second writer runs if the first succeeded.
abbrev pub and_then : Bytes → Result Error (Unit {0}) → Writer → Bytes × Result Error (Unit {0})
and_then buf (ok u) k = k buf
and_then buf (err e) k = (buf, err e)

infixl 5 ◌>>◌
abbrev pub ◌>>◌ : Writer → Writer → Writer
◌>>◌ m k buf = and_then (m buf).0 (m buf).1 k

abbrev pub write_all : Bytes → Writer
write_all b buf = (buf ++ b, ok tt)

-- `anyhow::ensure!`
abbrev pub check : Bool → Error → Writer
check b e buf = (buf, ensure b e)
