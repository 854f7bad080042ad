-- ===== src/Nanopb/Message/Fields.antt =====
-- The encoding of one field is uniform.
use firebase_login.Base.{
  ℕ, zero, suc, ◌+◌, ◌^◌, ◌≤◌, ◌<◌, ◌≡◌, ◌≢◌, refl, sym, ap, subst, ◌∙◌, arith, List, length,
  Option, none, some, Bool, true, false, not, ◌==◌, ◌&&◌, ltb, if◌then◌else◌,
}
use firebase_login.Nanopb.Istream.{missing_required_field, invalid_field_type}
use firebase_login.Nanopb.Ostream.{Emit, Written, done, fail, overrun, stuck}
use firebase_login.Nanopb.Field.{
  Field, FieldIter, field_at, pb_ltype, pb_htype, pb_atype, htype_required, htype_repeated,
  htype_oneof, atype_static, atype_pointer, pb_field_iter_next,
}
use firebase_login.Nanopb.Field.Find.{OnField, field_at-beyond}
use firebase_login.Nanopb.Scalar.{safe_read_bool}
use firebase_login.Nanopb.Blob.{is_pointer}
use firebase_login.Nanopb.Memory.{Memory, load, load_pointer, load_size}
use firebase_login.Nanopb.Encode.{Code, last_packable}
use firebase_login.Nanopb.Encode.Uniform.{IsFail, Writes, Fails, Outcome, Uniform}
use firebase_login.Nanopb.Encode.Compose.{
  seq-Uniform, if-Uniform, succeed-Uniform, return_error-Uniform,
}
use firebase_login.Nanopb.Encode.Values.{IsEncodable, encoder-Uniform, tag_for_field-Uniform}
use firebase_login.Nanopb.Encode.Arrays.{encode_array-Uniform}
use firebase_login.Nanopb.Presence.{
  htype_optional, is_static, pb_check_proto3_default_value, singular_default,
}
use firebase_login.Nanopb.Message.{
  atype_callback, reported, negated, or_callback_error, tagged, implicit_has, by_htype,
  with_presence, encode_basic_field, encode_callback_field, encode_field,
}

-- A field as the generator makes them, other than one that stands for extensions.
pub record IsField (field : Field) : Type 0 where
  pub tag_word : field.tag < 2 ^ 32
  pub tag_nonzero : field.tag ≢ 0
  pub known : pb_ltype field.type ≤ 10
  pub no_extension : pb_ltype field.type ≢ 9
  pub which : pb_htype field.type ≡ htype_oneof → field.size_offset ≢ 0

-- The table at an address and those of its submessages nest less deep than `depth`.
abbrev pub Nests : (ℕ → List Field) → ℕ → ℕ → Type 0
Nests tables zero fields = ⊥
Nests tables (suc depth) fields =
    (i : ℕ)
    → i < length (tables fields)
    → IsField (field_at (tables fields) i)
      × (pb_ltype (field_at (tables fields) i).type ≡ 8
          → (p : ℕ) × ((field_at (tables fields) i).ptr ≡ some p) × Nests tables depth p)

-- A callback writes the same bytes whenever it is called.
abbrev pub CallbacksUniform : Code → Memory → Type 0
CallbacksUniform code m =
    (callback : ℕ) (field : Field) (arg : ℕ) → Uniform (code.encode_callback callback field arg m)

-- The end of the fields is seen.
pub next_more :
    (it : FieldIter) → OnField it → it.pos + 1 < length it.fields → (pb_field_iter_next it).0 ≡ true
unfolding pb_field_iter_next
next_more it on h = ground (arith, on.tags it.pos on.inside, on.tags (it.pos + 1) h)

pub next_end :
    (it : FieldIter)
    → OnField it
    → length it.fields ≤ it.pos + 1
    → (pb_field_iter_next it).0 ≡ false
unfolding pb_field_iter_next
next_end it on h =
    ground (arith, on.tags it.pos on.inside, field_at-beyond it.fields (it.pos + 1) h)

abbrev pub Decided : Option Bool → Type 0
Decided none = ⊥
Decided (some b) = Unit {0}

pub if-Decided :
    (b : Bool) (x y : Option Bool)
    → (b ≡ true → Decided x)
    → (b ≡ false → Decided y)
    → Decided (if b then x else y)
if-Decided true x y hx hy = hx refl
if-Decided false x y hx hy = hy refl

negated-Decided : (o : Option Bool) → Decided o → Decided (negated o)
negated-Decided none d = d
negated-Decided (some b) d = tt

module _ (m : Memory) (sub_default : ℕ → ℕ → Option Bool) (code : Code) (field : Field)
    (nested : pb_ltype field.type ≡ 8
      → (p : ℕ) × (field.ptr ≡ some p) × ((src : ℕ) → Decided (sub_default p src))) where
  singular-Decided : (p_data : ℕ) → Decided (singular_default code m sub_default field p_data)
  singular-Decided p_data =
      let l = pb_ltype field.type in
      if-Decided (is_static field && l == 6) _ _ (λ _. tt)
        (λ _.
          if-Decided (is_static field && l == 7) _ _ (λ _. tt)
            (λ _.
              if-Decided (is_static field && l == 10) _ _ (λ _. tt)
                (λ _.
                  if-Decided (is_static field && l == 8) _ _
                    (λ h. let (p, e, d) = nested (ground arith) in rw e (d p_data))
                    (λ _.
                      if-Decided (is_pointer field && ltb last_packable l) _ _ (λ _. tt)
                        (λ _. tt)))))

  pub check-Decided :
      (p_data : ℕ) → Decided (pb_check_proto3_default_value code m sub_default field p_data)
  unfolding pb_check_proto3_default_value
  check-Decided p_data =
      let h = pb_htype field.type in
      let has_size = not (field.size_offset == 0) in
      if-Decided (h == htype_required) _ _ (λ _. tt)
        (λ _.
          if-Decided (h == htype_repeated && has_size) _ _ (λ _. tt)
            (λ _.
              if-Decided (h == htype_repeated && is_static field) _ _ (λ _. tt)
                (λ _.
                  if-Decided (h == htype_oneof) _ _ (λ _. tt)
                    (λ _.
                      if-Decided (h == htype_optional && has_size) _ _ (λ _. tt)
                        (λ _. singular-Decided p_data)))))

reported-IsFail : (w : Written) → IsFail w → IsFail (or_callback_error w)
reported-IsFail (done s) h = elim h [ ]
reported-IsFail (fail s) h = tt
reported-IsFail overrun h = elim h [ ]
reported-IsFail stuck h = elim h [ ]

or_callback_error-Writes : (e : Emit) (out : List ℕ) → Writes e out → Writes (reported e) out
unfolding reported
or_callback_error-Writes e out w = record {
  counts = λ s c. ap or_callback_error (w.counts s c);
  writes = λ s r room. ap or_callback_error (w.writes s r room);
  refuses = λ s r full. reported-IsFail (e s) (w.refuses s r full);
}

or_callback_error-Fails : (e : Emit) → Fails e → Fails (reported e)
unfolding reported
or_callback_error-Fails e f = record {
  on_counting = λ s c. reported-IsFail (e s) (f.on_counting s c);
  on_buffer = λ s r. reported-IsFail (e s) (f.on_buffer s r);
}

pub reported_as :
    (e : Emit) (out : List ℕ) (ok : Bool)
    → (length out < 2 ^ 62 → Outcome e out ok)
    → Uniform (reported e)
reported_as e out true law = record {
  out = out;
  succeeds = true;
  law = λ h. or_callback_error-Writes e out (law h);
}
reported_as e out false law = record {
  out = out;
  succeeds = false;
  law = λ h. or_callback_error-Fails e (law h);
}

module _ (code : Code) (m : Memory) (callbacks : CallbacksUniform code m) (sub : ℕ → ℕ → Emit)
    (sub_default : ℕ → ℕ → Option Bool) (field : Field) (is : IsField field)
    (nested : pb_ltype field.type ≡ 8
      → (p : ℕ) × (field.ptr ≡ some p)
        × ((src : ℕ) → Decided (sub_default p src))
        × ((src : ℕ) → Uniform (sub p src))) where
  pub encodable : IsEncodable sub field
  encodable = record {
    tag_word = is.tag_word;
    known = is.known;
    no_extension = is.no_extension;
    submessage = λ l fields src e.
        let (p, ep, _, u) = nested l in
        let same : some p ≡ some fields = sym ep ∙ e in
        subst (λ q. Uniform (sub q src)) (cc) (u src);
  }

  unfoldable pub tagged-Uniform :
      (p_data : ℕ) → Uniform (tagged code m sub sub_default field p_data)
  tagged-Uniform p_data =
      seq-Uniform _ _ (tag_for_field-Uniform field is.tag_word)
        (encoder-Uniform m sub field encodable p_data)

  unfoldable pub by_htype-Uniform :
      (has : Bool) (p_size p_data : ℕ)
      → Uniform (by_htype code m sub sub_default field has p_size p_data)
  unfolding by_htype
  by_htype-Uniform has p_size p_data =
      let h = pb_htype field.type in
      let in_struct = not (field.size_offset == 0) in
      let value = tagged-Uniform p_data in
      if-Uniform (h == htype_required) _ _
        (λ _.
          if-Uniform (p_data == 0) _ _ (λ _. return_error-Uniform missing_required_field)
            (λ _. value))
        (λ _.
          if-Uniform (h == htype_optional) _ _
            (λ _.
              if-Uniform (if in_struct then safe_read_bool (load 1 p_size m) else has) _ _
                (λ _. value) (λ _. succeed-Uniform))
            (λ _.
              if-Uniform (h == htype_repeated) _ _
                (λ _. encode_array-Uniform m sub field encodable p_data _)
                (λ _.
                  if-Uniform (h == htype_oneof) _ _
                    (λ one.
                      let offset = is.which (ground arith) in
                      if-Uniform (not in_struct) _ _ (λ none_there. absurd (ground arith))
                        (λ _.
                          if-Uniform (load_size p_size m == field.tag) _ _ (λ _. value)
                            (λ _. succeed-Uniform)))
                    (λ _. return_error-Uniform invalid_field_type))))

  unfoldable pub with_presence-Uniform :
      (p_data : ℕ) (o : Option Bool)
      → Decided o
      → Uniform (with_presence code m sub sub_default field p_data o)
  unfolding with_presence
  with_presence-Uniform p_data none d = elim d [ ]
  with_presence-Uniform p_data (some has) d =
      if-Uniform (is_pointer field) _ _ (λ _. by_htype-Uniform _ _ _) (λ _. by_htype-Uniform _ _ _)

  pub has-Decided : (p_data : ℕ) → Decided (implicit_has code m sub sub_default field p_data)
  has-Decided p_data =
      if-Decided (not (field.size_offset == 0)) _ _ (λ _. tt)
        (λ _.
          if-Decided (pb_htype field.type == htype_optional) _ _
            (λ _. negated-Decided _ (
              check-Decided m sub_default code field (λ l. let (p, e, d, _) = nested l in (p, e, d))
                p_data))
            (λ _. tt))

  unfoldable pub encode_field-Uniform :
      (p_data : ℕ) → Uniform (encode_field code m sub sub_default field p_data)
  unfolding encode_field encode_basic_field encode_callback_field
  encode_field-Uniform p_data =
      let a = pb_atype field.type in
      let basic =
        with_presence-Uniform p_data (implicit_has code m sub sub_default field p_data)
          (has-Decided p_data) in
      if-Uniform (a == atype_static) _ _ (λ _. basic)
        (λ _.
          if-Uniform (a == atype_pointer) _ _ (λ _. basic)
            (λ _.
              if-Uniform (a == atype_callback) _ _
                (λ _.
                  if-Uniform (load_pointer p_data m == 0) _ _ (λ _. succeed-Uniform)
                    (λ _.
                      let call = callbacks (load_pointer p_data m) field (p_data + 8) in
                      reported_as _ call.out call.succeeds call.law))
                (λ _. return_error-Uniform invalid_field_type)))
