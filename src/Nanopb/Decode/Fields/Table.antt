-- ===== src/Nanopb/Decode/Fields/Table.antt =====
-- What the decoding of a message asks of its table.
use firebase_login.Base.{ℕ, ◌<◌, ◌≢◌, List}
use firebase_login.Nanopb.Istream.{IStream}
use firebase_login.Nanopb.Field.{Field, FieldIter, pb_ltype}
use firebase_login.Nanopb.Field.Table.{OnTable, Each}
use firebase_login.Nanopb.Memory.{Memory}
use firebase_login.Nanopb.Action.{Change, Action}
use firebase_login.Nanopb.Action.Ends.{IsInput, Ends, Shorter, Total}
use firebase_login.Nanopb.Decode.Static.Ends.{NestedTotal}

-- The decoder of a field's data ends and takes at least one byte.
abbrev pub Eating : (Field → ℕ → Action (Unit {0})) → Field → Type 0
Eating func field =
    (dest : ℕ) (m : Memory) (s : IStream) → IsInput s → Ends (Shorter s) s (func field dest m s).1

-- The decoder of each field's data ends and takes at least one byte, and what is nested in the
-- fields gets its defaults and is released.
pub record Ready (func : Field → ℕ → Action (Unit {0})) (defaults : ℕ → ℕ → Change)
    (release : FieldIter → Change) (fs : List Field) : Type 0 where
  pub tags : Each (λ f. f.tag ≢ 0) fs
  pub no_extension : Each (λ f. pb_ltype f.type ≢ 9) fs
  pub sized : Each (λ f. 0 < f.data_size) fs
  pub eats : Each (Eating func) fs
  pub nested : Each (NestedTotal defaults) fs
  pub released : (it : FieldIter) → OnTable fs it → Total (release it)
