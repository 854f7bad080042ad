-- ===== src/Nanopb/Defaults/Within.antt =====
-- The default values are written inside of the struct.
use firebase_login.Base.{
  ℕ, zero, suc, ◌+◌, ◌*◌, ◌≤◌, ◌≡◌, refl, sym, subst, arith, List, length, Option, none, some, Bool,
  true, false, ◌==◌, not, ◌&&◌, ◌||◌, if◌then◌else◌, Bool-cases, inl, inr, replicate,
}
use firebase_login.Nanopb.Field.{
  FieldIter, field_at, current, begin_at, pb_ltype, pb_htype, pb_atype, ltype_submessage,
  ltype_extension, htype_repeated, htype_oneof, atype_static, pb_field_iter_next,
  pb_field_iter_begin,
}
use firebase_login.Nanopb.Presence.{htype_optional}
use firebase_login.Nanopb.Memory.{Memory, read_bytes, store, write_bytes}
use firebase_login.Nanopb.Action.{Host, Change}
use firebase_login.Nanopb.Action.Same.{
  Avoids, Same, Avoids-part, write_bytes-Same, store-Same, Kept, if-Kept, Kept-later, bind-Kept,
}
use firebase_login.Nanopb.Action.Within.{length-replicate}
use firebase_login.Nanopb.Defaults.{
  unchanged, memset_zero, each_field, message_to_defaults, init_data, field_to_default,
  pb_field_set_to_default, pb_message_set_to_defaults,
}
use firebase_login.Nanopb.Decode.Static.Within.{AvoidsSize}
use firebase_login.Nanopb.Decode.Layout.{Walked, Placed, Layout}

length-read_bytes : (n p : ℕ) (m : Memory) → length (read_bytes n p m) ≡ n
unfolding read_bytes
length-read_bytes zero p m = refl
length-read_bytes (suc n) p m = omega (arith, length-read_bytes n (p + 1) m)

module _ (P : ℕ → Type 0) where
  -- What each step keeps, the walk over the fields keeps.
  module _ (Inv : FieldIter → Type 0) (one : FieldIter → Change)
      (on : (it : FieldIter) → Inv it → Inv (pb_field_iter_next it).1)
      (each : (it : FieldIter) → Inv it → (m : Memory) → Kept P m (one it m)) where
    pub each_field-Kept :
        (rounds : ℕ) (it : FieldIter)
        → Inv it
        → (m : Memory) → Kept P m (each_field one rounds it m)
    unfolding each_field
    each_field-Kept zero it h m = tt
    each_field-Kept (suc rounds) it h m =
        let it' = (pb_field_iter_next it).1 in
        let more = (pb_field_iter_next it).0 in
        bind-Kept P m (one it m) (if more then each_field one rounds it' else unchanged)
          (each it h m) (λ m'. go more m' (each_field-Kept rounds it' (on it h) m'))
      where
        go :
            (more : Bool) (m' : Memory)
            → Kept P m' (each_field one rounds (pb_field_iter_next it).1 m')
            → Kept P m'
                ((if more then each_field one rounds (pb_field_iter_next it).1 else unchanged) m')
        go true m' k = k
        go false m' k = λ a p. refl

  pub front-Avoids :
      (Inner : ℕ → ℕ → Type 0) (it : FieldIter)
      → Placed P Inner it
      → Avoids P it.p_data (it.p_data + (current it).data_size)
  front-Avoids Inner it placed =
      let n = (current it).data_size in
      let first : n ≤ n * placed.slots = grind (arith, placed.some_slot) in
      Avoids-part P it.p_data (it.p_data + n * placed.slots) it.p_data (it.p_data + n) placed.region
        (omega arith) (omega (arith, first))

  counter-Avoids :
      (it : FieldIter)
      → AvoidsSize P it
      → (pb_htype (current it).type == htype_repeated || pb_htype (current it).type == htype_oneof)
        ≡ true
      → Avoids P it.p_size (it.p_size + 4)
  counter-Avoids it size e =
      let h = pb_htype (current it).type in
      elim (Bool-cases (h == htype_repeated)) [
        | inl r ↦ size.repeated (ground arith)
        | inr other ↦ size.oneof (ground (arith, e, other))
      ]

  -- Bytes that fill the field.
  pub filled-Same :
      (Inner : ℕ → ℕ → Type 0) (it : FieldIter) (bytes : List ℕ) (m : Memory)
      → Placed P Inner it
      → length bytes ≡ (current it).data_size
      → Same P m (write_bytes it.p_data bytes m)
  filled-Same Inner it bytes m placed e =
      write_bytes-Same P bytes it.p_data m
        (subst (λ n. Avoids P it.p_data (it.p_data + n)) (sym e) (front-Avoids Inner it placed))

  pub zeroed-Same :
      (Inner : ℕ → ℕ → Type 0) (it : FieldIter) (m : Memory)
      → Placed P Inner it
      → Same P m (memset_zero it.p_data (current it).data_size m)
  zeroed-Same Inner it m placed =
      filled-Same Inner it (replicate (current it).data_size 0) m placed
        (length-replicate (current it).data_size 0)

  module _ (host : Host) (one : FieldIter → Change) where
    -- The defaults of what lies in the struct stay in the struct.
    abbrev Inside : ℕ → ℕ → Type 0
    Inside p dest = (m : Memory) → Kept P m (message_to_defaults host one p dest m)

    init_data-Kept :
        (Inner : ℕ → ℕ → Type 0) (it : FieldIter) (m : Memory)
        → Placed P Inner it
        → ((p : ℕ) → Inner p it.p_data → Inside p it.p_data)
        → Kept P m (init_data host one it m)
    unfolding init_data
    init_data-Kept Inner it m placed inside = go (current it).ptr refl
      where
        go :
            (ptr : Option ℕ)
            → (current it).ptr ≡ ptr
            → Kept P m (elim ptr as (λ _. Option Memory) [
              | none ↦
                  if pb_ltype (current it).type == ltype_submessage
                  then none
                  else some (memset_zero it.p_data (current it).data_size m)
              | some p ↦
                  if pb_ltype (current it).type == ltype_submessage
                  then message_to_defaults host one p it.p_data m
                  else some (write_bytes it.p_data (read_bytes (current it).data_size p m) m)
            ])
        go none e =
            if-Kept P m (pb_ltype (current it).type == 8) _ _ (λ _. tt)
              (λ _. zeroed-Same Inner it m placed)
        go (some q) e =
            if-Kept P m (pb_ltype (current it).type == 8) _ _
              (λ l.
                let (p, ep, inner, _) = placed.nested (ground arith) in
                let same : p ≡ q = cc in
                subst (λ r. Kept P m (message_to_defaults host one r it.p_data m)) same
                  (inside p inner m))
              (λ _.
                filled-Same Inner it (read_bytes (current it).data_size q m) m placed
                  (length-read_bytes (current it).data_size q m))

    field_to_default-Kept :
        (Inner : ℕ → ℕ → Type 0) (it : FieldIter) (m : Memory)
        → Placed P Inner it
        → ((p : ℕ) → Inner p it.p_data → Inside p it.p_data)
        → Kept P m (field_to_default host one it m)
    unfolding field_to_default
    field_to_default-Kept Inner it m placed inside =
        let field = current it in
        let h = pb_htype field.type in
        let a = pb_atype field.type in
        let filled = λ (m' : Memory). init_data-Kept Inner it m' placed inside in
        if-Kept P m (pb_ltype field.type == ltype_extension) _ _
          (λ e. absurd (ground (arith, placed.no_extension)))
          (λ _.
            if-Kept P m (a == atype_static) _ _
              (λ _.
                if-Kept P m (h == htype_optional && not (it.p_size == it.p_data)) _ _
                  (λ o.
                    let m' = store 1 it.p_size 0 m in
                    Kept-later P m m' (init_data host one it m')
                      (store-Same P 1 it.p_size 0 m
                        (placed.size.optional (ground arith) (ground arith)))
                      (filled m'))
                  (λ _.
                    if-Kept P m (h == htype_repeated || h == htype_oneof) _ _
                      (λ c. store-Same P 4 it.p_size 0 m (counter-Avoids it placed.size c))
                      (λ _. filled m)))
              (λ other. absurd (ground (arith, placed.static))))

  -- The default values of a message are written where its fields lie.
  pub pb_message_set_to_defaults-Kept :
      (host : Host) (depth fields dest_struct : ℕ) (m : Memory)
      → Layout P host.tables depth fields dest_struct
      → Kept P m (pb_message_set_to_defaults host depth fields dest_struct m)
  unfolding pb_message_set_to_defaults pb_field_set_to_default message_to_defaults
      pb_field_iter_begin
  pb_message_set_to_defaults-Kept host zero fields dest_struct m layout = elim layout [ ]
  pb_message_set_to_defaults-Kept host (suc depth) fields dest_struct m layout =
      let fs = host.tables fields in
      let start = begin_at fs dest_struct in
      if-Kept P m (not ((field_at fs 0).tag == 0)) _ _
        (λ _.
          each_field-Kept (Walked start) (pb_field_set_to_default host (suc depth))
            (λ it w. Walked.step w)
            (λ it w m'.
              field_to_default-Kept host (pb_field_set_to_default host depth)
                (Layout P host.tables depth) it m' (layout it w)
                (λ p inner m''. pb_message_set_to_defaults-Kept host depth p it.p_data m'' inner))
            (length fs) start Walked.begin m)
        (λ _ a p. refl)
