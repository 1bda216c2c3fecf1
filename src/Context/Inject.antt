-- ===== src/Context/Inject.antt =====
-- About `VirtualizedTool`: the input that the tool inside sees.
use konf.Shared.{
  ◌≡◌, refl, ap, subst, ◌>>=◌, inl, inr, Option, none, some, [], ◌∷◌, arith, Bool-cases,
  Option-cases, Text, text_eq, text_eq_iff, Table, lookup, Json, Fields, object, as_object,
  get_field, insert_field, get_field-insert_field, ok, >>=-eq-ok,
}
use konf.Envelope.{Envelope}
use konf.Guard.{Tool}
use konf.Context.{insert_all, inject_payload, inject_bindings, with_payload, virtualized}

-- No key stands twice.
abbrev pub KeysDistinct : Table Json → Type 0
KeysDistinct [] = Unit {0}
KeysDistinct ((k, v) ∷ m) = (lookup k m ≡ none) × KeysDistinct m

abbrev pub or_else : Option Json → Option Json → Option Json
or_else none d = d
or_else (some v) d = some v

get_field-insert_all :
    (bindings : Table Json) (fs : Fields) (j : Text)
    → KeysDistinct bindings
    → get_field j (insert_all bindings fs) ≡ or_else (lookup j bindings) (get_field j fs)
unfolding insert_all lookup
get_field-insert_all [] fs j d = refl
get_field-insert_all ((k, v) ∷ m) fs j d = elim (Bool-cases (text_eq k j)) [
  | inl e ↦
      let same = (text_eq_iff k j).0 e in
      ground (
        arith,
        get_field-insert_all m (insert_field k v fs) j d.1,
        get_field-insert_field k j v fs,
        ap (λ z. lookup z m) same,
      )
  | inr e ↦
      ground
        (arith, get_field-insert_all m (insert_field k v fs) j d.1, get_field-insert_field k j v fs)
]

-- The field of a payload, if it is an object.
abbrev pub payload_field : Text → Json → Option Json
payload_field j payload = elim (as_object payload) [ none ↦ none | some fs ↦ get_field j fs ]

-- What injection returns for a payload that is an object.
injected : Table Json → Envelope Json → Fields → Envelope Json
injected bindings env fs = with_payload env (object (insert_all bindings fs))

inject_bindings-object :
    (b : Text × Json) (m : Table Json) (env : Envelope Json) (fs : Fields)
    → as_object env.payload ≡ some fs
    → inject_bindings (b ∷ m) env ≡ ok (injected (b ∷ m) env fs)
unfolding inject_bindings injected
inject_bindings-object b m env fs e =
    ap (λ o. inject_payload (b ∷ m) o >>= λ p. ok (with_payload env p)) e

abbrev Injected : Table Json → Envelope Json → Text → Envelope Json → Type 0
Injected bindings env j out =
    (payload_field j out.payload ≡ or_else (lookup j bindings) (payload_field j env.payload))
    × (out ≡ with_payload env out.payload)

injected-Injected :
    (bindings : Table Json) (env : Envelope Json) (fs : Fields) (j : Text)
    → KeysDistinct bindings
    → as_object env.payload ≡ some fs
    → Injected bindings env j (injected bindings env fs)
unfolding injected as_object
injected-Injected bindings env fs j d e =
    (ground (arith, get_field-insert_all bindings fs j d), refl)

-- After injection each bound key holds its bound value, whatever the caller sent, and every other
-- field is as the caller sent it. Nothing else of the envelope changes.
pub inject_bindings-field :
    (bindings : Table Json) (env out : Envelope Json) (j : Text)
    → KeysDistinct bindings
    → inject_bindings bindings env ≡ ok out
    → (payload_field j out.payload ≡ or_else (lookup j bindings) (payload_field j env.payload))
      × (out ≡ with_payload env out.payload)
unfolding inject_bindings lookup
inject_bindings-field [] env out j d h =
    let e : env ≡ out = cc h in subst (Injected [] env j) e (refl, refl)
inject_bindings-field (b ∷ m) env out j d h = elim (Option-cases (as_object env.payload)) [
  | inl e ↦ absurd (ground arith)
  | inr (fs, e) ↦
      let made = inject_bindings-object b m env fs e in
      let same : injected (b ∷ m) env fs ≡ out = cc (made, h) in
      subst (Injected (b ∷ m) env j) same (injected-Injected (b ∷ m) env fs j d e)
]

-- A virtualized tool that answers has passed the injected envelope to the inner tool.
pub virtualized-ok :
    (bindings : Table Json) (inner : Tool) (env out : Envelope Json)
    → virtualized bindings inner env ≡ ok out
    → (seen : Envelope Json) × (inject_bindings bindings env ≡ ok seen) × (inner seen ≡ ok out)
unfolding virtualized
virtualized-ok bindings inner env out h = >>=-eq-ok (inject_bindings bindings env) inner h
