-- ===== src/Torrent/Magnet/Link/Values.antt =====
-- The parameters that `MagnetLink::parse` of src/torrent/magnet.rs collects, against the pairs of the query.
use codecrafters_bittorrent.Prelude.{
  ◌≡◌, refl, sym, ap, ◌∙◌, false, inl, inr, Bool-cases, List, [], ◌∷◌, ◌++◌, append_assoc,
  append-nil, Option, none, some, list_eq, list_eq_refl, list_eq→eq, if◌then◌else◌,
}
use codecrafters_bittorrent.Utils.RawBytes.{Text}
use codecrafters_bittorrent.Torrent.Magnet.Link.{
  Params, push_param, collect_params, get, remove, last, last_of, values_of,
}

-- The values of a key, in order.
pub values : Text → List (Text × Text) → List Text
values k [] = []
values k ((key, v) ∷ pairs) = let rest = values k pairs in if list_eq key k then v ∷ rest else rest

pub get-remove_other :
    (k gone : Text) (params : Params)
    → list_eq gone k ≡ false
    → get k (remove gone params) ≡ get k params
unfolding get remove
get-remove_other k gone [] h = refl
get-remove_other k gone ((key, vs) ∷ params) h =
    let ih = get-remove_other k gone params h in
    elim (Bool-cases (list_eq key gone)) [
      | inl b ↦
          let other : list_eq key k ≡ false = ap (λ x. list_eq x k) (list_eq→eq key gone b) ∙ h in
          rw (b, other, remove, get) refl
      | inr b ↦ elim (Bool-cases (list_eq key k)) [
        | inl d ↦ rw (b, d, remove, get) refl
        | inr d ↦ rw (b, d, remove, get) ih
      ]
    ]

get-push_param_other :
    (k key v : Text) (params : Params)
    → list_eq key k ≡ false
    → get k (push_param key v params) ≡ get k params
unfolding get push_param
get-push_param_other k key v [] h = rw (h, get) refl
get-push_param_other k key v ((first, vs) ∷ params) h =
    let ih = get-push_param_other k key v params h in
    elim (Bool-cases (list_eq first key)) [
      | inl b ↦
          let other : list_eq first k ≡ false =
            ap (λ x. list_eq x k) (list_eq→eq first key b) ∙ h in
          rw (b, other, push_param, get) refl
      | inr b ↦ elim (Bool-cases (list_eq first k)) [
        | inl d ↦ rw (b, d, push_param, get) refl
        | inr d ↦ rw (b, d, push_param, get) ih
      ]
    ]

get-push_param_same :
    (k v : Text) (params : Params)
    → values_of (get k (push_param k v params)) ≡ values_of (get k params) ++ v ∷ []
unfolding get push_param
get-push_param_same k v [] = rw (list_eq_refl k, get) refl
get-push_param_same k v ((first, vs) ∷ params) =
    let ih = get-push_param_same k v params in
    elim (Bool-cases (list_eq first k)) [
      | inl b ↦ rw (b, push_param, get, b) refl
      | inr b ↦ rw (b, push_param, get, b) ih
    ]

get-collect_params :
    (k : Text) (params : Params) (pairs : List (Text × Text))
    → values_of (get k (collect_params params pairs)) ≡ values_of (get k params) ++ values k pairs
unfolding collect_params values
get-collect_params k params [] = sym (append-nil _)
get-collect_params k params ((key, v) ∷ pairs) =
    let ih = get-collect_params k (push_param key v params) pairs in
    elim (Bool-cases (list_eq key k)) [
      | inl b ↦
          let pushed : values_of (get k (push_param key v params))
              ≡ values_of (get k params) ++ v ∷ [] =
            rw (list_eq→eq key k b) (get-push_param_same k v params) in
          rw (b, collect_params, values)
            (ih
              ∙ ap (λ l. l ++ values k pairs) pushed
              ∙ append_assoc (values_of (get k params)) _ _)
      | inr b ↦
          rw (b, collect_params, values)
            (ih ∙ ap (λ o. values_of o ++ values k pairs) (get-push_param_other k key v params b))
    ]

pub get-collected :
    (k : Text) (pairs : List (Text × Text))
    → values_of (get k (collect_params [] pairs)) ≡ values k pairs
unfolding get
get-collected k pairs = get-collect_params k [] pairs

get_never_pushed :
    (k : Text) (params : Params) (pairs : List (Text × Text))
    → values k pairs ≡ []
    → get k (collect_params params pairs) ≡ get k params
unfolding collect_params values
get_never_pushed k params [] h = refl
get_never_pushed k params ((key, v) ∷ pairs) h = elim (Bool-cases (list_eq key k)) [
  | inl b ↦ absurd (cc (rw (b, values) at h))
  | inr b ↦
      get_never_pushed k (push_param key v params) pairs (rw (b, values) at h)
      ∙ get-push_param_other k key v params b
]

-- A key that is found stands in the query.
pub get_found :
    (k : Text) (pairs : List (Text × Text)) (vs : List Text)
    → get k (collect_params [] pairs) ≡ some vs
    → ¬ (values k pairs ≡ [])
unfolding get
get_found k pairs vs h e = cc (get_never_pushed k [] pairs e, h)

pub last_of-values_of : (o : Option (List Text)) → last_of o ≡ last (values_of o)
unfolding last
last_of-values_of none = refl
last_of-values_of (some values) = refl
