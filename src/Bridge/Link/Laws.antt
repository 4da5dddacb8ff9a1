-- ===== src/Bridge/Link/Laws.antt =====
-- Which node a browse finds, and the bounds of the backoff.
use mathlib.Core.List.{Memᴰ}
use mathlib.Core.List.Memᴰ
use bo_smart_factory_opcua_t.Base.{
  ℕ, suc, ◌≡◌, refl, ap, ◌∙◌, Bool, true, false, not, ◌||◌, inl, inr, List, [], ◌∷◌, Option, none,
  some, CString, arith, length, ◌==◌, until_nul, str_eq→eq, subst, Bool-cases, Option-cases,
  if-split, if-either,
}
use bo_smart_factory_opcua_t.Nodes.BrowseMap.{NodeId}
use bo_smart_factory_opcua_t.Nodes.Server.{StatusCode, is_good}
use bo_smart_factory_opcua_t.Bridge.Frame.{sensor_browse_names, sensor_count}
use bo_smart_factory_opcua_t.Bridge.Link.{
  UaClient, BrowseResponse, BrowseResult, NodeClass, variable, ReferenceDescription, names_node,
  find_reference, references_of, browse_to_node, find_sensors_folder, resolve_sensors, resolve,
  back_off, Link, next_backoff, attempt, is_incomplete, is_backoff_over, reconnect,
}

-- The first reference that passes the test: those before it fail.
pub data FirstNamed (passes : ReferenceDescription → Bool)
    : List ReferenceDescription → ReferenceDescription → Type 0 where
  here :
      {ref : ReferenceDescription} {refs : List ReferenceDescription}
      → passes ref ≡ true
      → FirstNamed passes (ref ∷ refs) ref
  later :
      {r ref : ReferenceDescription} {refs : List ReferenceDescription}
      → passes r ≡ false
      → FirstNamed passes refs ref
      → FirstNamed passes (r ∷ refs) ref

FirstNamed-Memᴰ :
    {passes : ReferenceDescription → Bool} {refs : List ReferenceDescription}
    {ref : ReferenceDescription}
    → FirstNamed passes refs ref
    → Memᴰ ref refs × (passes ref ≡ true)
FirstNamed-Memᴰ (here p) = (Memᴰ.head refl, p)
FirstNamed-Memᴰ (later f first) = (Memᴰ.tail (FirstNamed-Memᴰ first).0, (FirstNamed-Memᴰ first).1)

find_reference-first :
    (malloc : ℕ → Bool) (ns_idx : ℕ) (name : CString) (refs : List ReferenceDescription)
    (id : NodeId)
    → find_reference malloc ns_idx name refs ≡ some id
    → (ref : ReferenceDescription) × FirstNamed (names_node malloc ns_idx name) refs ref
      × (ref.node_id ≡ id)
unfolding find_reference
find_reference-first malloc ns_idx name [] id h = cc
find_reference-first malloc ns_idx name (r ∷ refs) id h =
    elim (Bool-cases (names_node malloc ns_idx name r)) [
      | inl e ↦ let h' : some r.node_id ≡ some id = rw (e, find_reference) at h in (r, here e, cc)
      | inr e ↦
          let (ref, first, same) =
            find_reference-first malloc ns_idx name refs id (rw (e, find_reference) at h) in
          (ref, later e first, same)
    ]

-- Where a browse succeeds, the node id is that of the first reference of the answer that has the
-- namespace and the name.
pub browse_to_node-first :
    (client : UaClient) (start : NodeId) (ns_idx : ℕ) (name : CString) (c : NodeClass) (id : NodeId)
    → browse_to_node client start ns_idx name c ≡ some id
    → (ref : ReferenceDescription) × FirstNamed
        (names_node client.malloc ns_idx name)
        (references_of (client.browse start c))
        ref
      × (ref.node_id ≡ id)
unfolding browse_to_node
browse_to_node-first client start ns_idx name c id h =
    find_reference-first client.malloc ns_idx name (references_of (client.browse start c)) id h

-- A server's answer holds a reference: it is in the first result, and all is good.
pub record Holds (resp : BrowseResponse) (ref : ReferenceDescription) : Type 0 where
  pub result : BrowseResult
  pub others : List BrowseResult
  pub service_good : is_good resp.service_result ≡ true
  pub first : resp.results ≡ result ∷ others
  pub result_good : is_good result.status_code ≡ true
  pub member : Memᴰ ref result.references

references_of-Holds :
    (service : StatusCode) (results : List BrowseResult) (ref : ReferenceDescription)
    → Memᴰ ref (references_of (record { service_result = service; results = results }))
    → Holds (record { service_result = service; results = results }) ref
references_of-Holds service [] ref m =
    absurd (Memᴰ.not-nil (subst (Memᴰ ref) (if-either (λ l. l ≡ []) (is_good service) refl refl) m))
references_of-Holds service (result ∷ others) ref m = elim (Bool-cases (is_good service)) [
  | inr e ↦ absurd (Memᴰ.not-nil (rw e at m))
  | inl e ↦ elim (Bool-cases (is_good result.status_code)) [
    | inr f ↦ absurd (Memᴰ.not-nil (rw (e, f) at m))
    | inl f ↦ record {
      result = result;
      others = others;
      service_good = e;
      first = refl;
      result_good = f;
      member = rw (e, f) at m;
    }
  ]
]

names_node-lem :
    (malloc : ℕ → Bool) (ns_idx : ℕ) (name : CString) (ref : ReferenceDescription)
    → names_node malloc ns_idx name ref ≡ true
    → (ref.namespace_index ≡ ns_idx) × (until_nul ref.name ≡ name)
names_node-lem malloc ns_idx name ref h = ground (arith, str_eq→eq (until_nul ref.name) name)

-- A node is that of a sensor: a reference of the server's answer to the browse for the variables of
-- the folder has the namespace and, up to its first NUL byte, the name.
pub record IsSensorNode (client : UaClient) (folder : NodeId) (ns_idx : ℕ) (name : CString)
    (id : NodeId) : Type 0 where
  pub ref : ReferenceDescription
  pub held : Holds (client.browse folder variable) ref
  pub same_namespace : ref.namespace_index ≡ ns_idx
  pub same_name : until_nul ref.name ≡ name
  pub same_id : ref.node_id ≡ id

-- Each node id is that of the sensor of its name.
abbrev pub AllFound : UaClient → NodeId → ℕ → List CString → List NodeId → Type 0
AllFound client folder ns_idx [] ids = ids ≡ []
AllFound client folder ns_idx (name ∷ names) [] = ⊥
AllFound client folder ns_idx (name ∷ names) (id ∷ ids) =
    IsSensorNode client folder ns_idx name id × AllFound client folder ns_idx names ids

browse_to_node-IsSensorNode :
    (client : UaClient) (folder : NodeId) (ns_idx : ℕ) (name : CString) (id : NodeId)
    → browse_to_node client folder ns_idx name variable ≡ some id
    → IsSensorNode client folder ns_idx name id
browse_to_node-IsSensorNode client folder ns_idx name id h =
    let (ref, first, same) = browse_to_node-first client folder ns_idx name variable id h in
    let (m, passes) = FirstNamed-Memᴰ first in
    let named = names_node-lem client.malloc ns_idx name ref passes in
    record {
      ref = ref;
      held = references_of-Holds _ _ ref m;
      same_namespace = named.0;
      same_name = named.1;
      same_id = same;
    }

-- With one id for each name: if every sensor is reported as found, then each node id is that of a
-- variable in the folder, in the server's answer to a good browse, with the namespace and the
-- sensor's own name: the ids are in the order of the names, and none is left from before.
pub resolve_sensors-AllFound :
    (client : UaClient) (folder : NodeId) (ns_idx : ℕ) (names : List CString) (ids : List NodeId)
    → length names ≡ length ids
    → (resolve_sensors client folder ns_idx names ids).0 ≡ true
    → AllFound client folder ns_idx names (resolve_sensors client folder ns_idx names ids).1
unfolding resolve_sensors
resolve_sensors-AllFound client folder ns_idx [] [] l h = refl
resolve_sensors-AllFound client folder ns_idx [] (id ∷ ids) l h = absurd (omega (arith, l))
resolve_sensors-AllFound client folder ns_idx (name ∷ names) [] l h = absurd (omega (arith, l))
resolve_sensors-AllFound client folder ns_idx (name ∷ names) (id ∷ ids) l h =
    elim (Option-cases (browse_to_node client folder ns_idx name variable)) [
      | inl e ↦ let h' : false ≡ true = rw (e, resolve_sensors) at h in cc
      | inr (found, e) ↦
          rw (e, resolve_sensors)
            (
              browse_to_node-IsSensorNode client folder ns_idx name found e,
              resolve_sensors-AllFound client folder ns_idx names ids (omega (arith, l))
                  (rw (e, resolve_sensors) at h),
            )
    ]

length-resolve_sensors :
    (client : UaClient) (folder : NodeId) (ns_idx : ℕ) (names : List CString) (ids : List NodeId)
    → length (resolve_sensors client folder ns_idx names ids).1 ≡ length ids
unfolding resolve_sensors
length-resolve_sensors client folder ns_idx [] ids = refl
length-resolve_sensors client folder ns_idx (name ∷ names) [] = refl
length-resolve_sensors client folder ns_idx (name ∷ names) (id ∷ ids) =
    elim (Option-cases (browse_to_node client folder ns_idx name variable)) [
      | inl e ↦ rw (e, resolve_sensors) refl
      | inr (found, e) ↦
          rw (e, resolve_sensors) (ap suc (length-resolve_sensors client folder ns_idx names ids))
    ]

-- The values of the backoff, in milliseconds.
abbrev pub is_backoff : ℕ → Bool
is_backoff ms =
    (((ms == 1000) || (ms == 2000)) || ((ms == 4000) || (ms == 8000)))
    || ((ms == 16000) || (ms == 10000))

-- The connection's variables are in their bounds.
pub record IsLink (l : Link) : Type 0 where
  pub ids_fit : length l.sensor_node_ids ≡ sensor_count
  pub backoff_known : is_backoff l.reconnect_backoff_ms ≡ true

next_backoff-is_backoff : (ms : ℕ) → is_backoff ms ≡ true → is_backoff (next_backoff ms) ≡ true
unfolding next_backoff
next_backoff-is_backoff ms h = ground arith

back_off-IsLink : (l : Link) → IsLink l → IsLink (back_off l)
back_off-IsLink l k = record {
  ids_fit = k.ids_fit;
  backoff_known = next_backoff-is_backoff l.reconnect_backoff_ms k.backoff_known;
}

resolve-IsLink :
    (client : UaClient) (l : Link) (o : Option NodeId) → IsLink l → IsLink (resolve client l o)
resolve-IsLink client l none k = back_off-IsLink l k
resolve-IsLink client l (some folder) k =
    let (all, ids) = resolve_sensors client folder l.ns_idx sensor_browse_names l.sensor_node_ids in
    let l' : Link = record l { sensor_node_ids = ids; sensor_node_ids_resolved = all } in
    let fits : length ids ≡ sensor_count =
      length-resolve_sensors client folder l.ns_idx sensor_browse_names l.sensor_node_ids
      ∙ k.ids_fit in
    if-split IsLink all (λ _. record { ids_fit = fits; backoff_known = refl })
      (λ _. back_off-IsLink l' (record { ids_fit = fits; backoff_known = k.backoff_known }))

attempt-IsLink : (client : UaClient) (l : Link) → IsLink l → IsLink (attempt client l)
unfolding attempt
attempt-IsLink client l k =
    if-split IsLink (not (is_good client.connect)) (λ _. back_off-IsLink l k)
      λ _.
        if-split IsLink (not (is_good client.namespace_get_index.0)) (λ _. back_off-IsLink l k)
          λ _.
            let l' : Link = record l { ns_idx = client.namespace_get_index.1 } in
            resolve-IsLink client l' (find_sensors_folder client l'.ns_idx)
              (record { ids_fit = k.ids_fit; backoff_known = k.backoff_known })

pub reconnect-IsLink :
    (client : UaClient) (connected : Bool) (now : ℕ) (l : Link)
    → IsLink l
    → IsLink (reconnect client connected now l)
unfolding reconnect
reconnect-IsLink client connected now l k =
    let a = attempt-IsLink client l k in
    if-either IsLink (is_incomplete l connected)
      (if-either IsLink (is_backoff_over l now)
        {x = record (attempt client l) { last_reconnect_attempt_ms = now }}
        (record { ids_fit = a.ids_fit; backoff_known = a.backoff_known }) k)
      k
