-- ===== src/Tests/Server.antt =====
-- A small stand-in for an open62541 server: it accepts every node, and knows callbacks and contexts.
use bo_smart_factory_opcua_t.Base.{
  ◌≡◌, ◌≢◌, refl, sym, ap, ◌∙◌, Bool, true, false, ◌&&◌, Option, none, some, if◌then◌else◌, str_eq,
  str_eq_iff, str_eq_refl, ◌==◌, arith, inl, inr, Bool-cases,
}
use mathlib.Core.Bool.{false≢true}
use bo_smart_factory_opcua_t.Nodes.BrowseMap.{NodeId, numeric, string}
use bo_smart_factory_opcua_t.Nodes.Server.{UaServer, Callback, SensorPointer, good}
use bo_smart_factory_opcua_t.Nodes.Edit.Pointers.{UaLaws}

pub record Tiny : Type 0 where
  pub callbacks : NodeId → Option Callback
  pub contexts : NodeId → Option SensorPointer

unfoldable pub same_id : NodeId → NodeId → Bool
same_id (numeric a b) (numeric c d) = (a == c) && (b == d)
same_id (string a s) (string c t) = (a == c) && str_eq s t
same_id _ _ = false

same_id_refl : (p : NodeId) → same_id p p ≡ true
unfolding same_id
same_id_refl (numeric a b) = ground arith
same_id_refl (string a s) = ground (arith, str_eq_refl s)

same_id→eq : (p q : NodeId) → same_id p q ≡ true → p ≡ q
unfolding same_id
same_id→eq (numeric a b) (numeric c d) h = ground arith
same_id→eq (string a s) (string c t) h = ground (arith, str_eq_iff s t)
same_id→eq (numeric a b) (string c t) h = cc
same_id→eq (string a s) (numeric c d) h = cc

pub ids_differ : (p q : NodeId) → same_id p q ≡ false → p ≢ q
ids_differ p q h e = false≢true (sym h ∙ (ap (same_id p) (sym e) ∙ same_id_refl p))

same_id_ne : (p q : NodeId) → q ≢ p → same_id p q ≡ false
same_id_ne p q ne = elim (Bool-cases (same_id p q)) [
  | inl e ↦ absurd (ne (sym (same_id→eq p q e)))
  | inr e ↦ e
]

abbrev pub put {ℓ} : {A : Type ℓ} → (NodeId → A) → NodeId → A → NodeId → A
put f p a q = if same_id p q then a else f q

abbrev pub tiny_server : UaServer
tiny_server = record {
  Server = Tiny;
  add_object_node = λ s r. (s, good, r.node_id);
  add_variable_node = λ s r. (s, good, r.node_id);
  set_value_callback = λ s id cb. record s { callbacks = put s.callbacks id (some cb) };
  set_node_context = λ s id p. record s { contexts = put s.contexts id (some p) };
  write_value = λ s id v. s;
  delete_node =
      λ s id. record { callbacks = put s.callbacks id none; contexts = put s.contexts id none };
  on_write = λ s id. s.callbacks id;
  node_context = λ s id. s.contexts id;
}

put_ne {ℓ} : {A : Type ℓ} (f : NodeId → A) (p q : NodeId) (a : A) → q ≢ p → put f p a q ≡ f q
put_ne f p q a ne = rw (same_id_ne p q ne)

put_self {ℓ} : {A : Type ℓ} (f : NodeId → A) (p : NodeId) (a : A) → put f p a p ≡ a
put_self f p a = rw (same_id_refl p)

pub tiny_server_laws : UaLaws tiny_server
tiny_server_laws = record {
  writes_keep = record {
    on_write-write_value = λ s id v q. refl;
    node_context-write_value = λ s id v q. refl;
  };
  on_write-delete_node_ne = λ s id q ne. put_ne s.callbacks id q none ne;
  node_context-delete_node_ne = λ s id q ne. put_ne s.contexts id q none ne;
  on_write-add_variable_node_ne = λ s r q ne. refl;
  node_context-add_variable_node_ne = λ s r q ne. refl;
  on_write-set_value_callback = λ s id cb. put_self s.callbacks id (some cb);
  on_write-set_value_callback_ne = λ s id cb q ne. put_ne s.callbacks id q (some cb) ne;
  node_context-set_value_callback = λ s id cb q. refl;
  node_context-set_node_context = λ s id p. put_self s.contexts id (some p);
  node_context-set_node_context_ne = λ s id p q ne. put_ne s.contexts id q (some p) ne;
  on_write-set_node_context = λ s id p q. refl;
}

abbrev pub empty_server : Tiny
empty_server = record { callbacks = λ _. none; contexts = λ _. none }
