-- ===== src/Gateway/Signaling/Tables.antt =====
-- The four tables of gateway/src/signaling_hub.cpp agree, and each change to them keeps them so.
use eye_d.Base.{
  ℕ, ◌≡◌, refl, sym, subst, ◌∙◌, ◌≢◌, inl, inr, true, false, List, Option, none, some, String,
  arith, Bool-cases, ◌==◌, ==_iff,
}
use eye_d.Base.Assoc.{
  lookup, insert, erase, lookup-insert_self, lookup-insert_ne, lookup-erase_ne, lookup-insert_inv,
  lookup-erase_inv,
}
use eye_d.Base.Eq.{nat_Eq, string_Eq}
use eye_d.Base.Sets.{member, add, IsAscending, member-add, add-IsAscending}
use eye_d.Gateway.WsHub.{Wire}
use eye_d.Gateway.Signaling.{
  SignalingHub, empty_hub, register_device, register_viewer, or_empty, forget,
}

-- The tables agree: whoever stands as the device or as a viewer of a name is registered under that
-- name, in that role.
pub record Agrees (hub : SignalingHub) : Type 0 where
  pub device_known :
      (d : String) (s : ℕ)
      → lookup d hub.devices ≡ some s
      → (lookup s hub.session_device ≡ some d) × (lookup s hub.session_role ≡ some "device")
  pub viewer_known :
      (d : String) (xs : List ℕ) (s : ℕ)
      → lookup d hub.viewers ≡ some xs
      → member s xs ≡ true
      → (lookup s hub.session_device ≡ some d) × (lookup s hub.session_role ≡ some "viewer")
  pub ascending : (d : String) (xs : List ℕ) → lookup d hub.viewers ≡ some xs → IsAscending xs

pub empty_hub-Agrees : Agrees empty_hub
unfolding empty_hub lookup
empty_hub-Agrees = record {
  device_known = λ d s e. cc;
  viewer_known = λ d xs s e m. cc;
  ascending = λ d xs e. cc;
}

module _ (hub : SignalingHub) (a : Agrees hub) (d : String) where
  pub known_viewer :
      (t : ℕ) (o : Option (List ℕ))
      → lookup d hub.viewers ≡ o
      → member t (or_empty o) ≡ true
      → (lookup t hub.session_device ≡ some d) × (lookup t hub.session_role ≡ some "viewer")
  unfolding member
  known_viewer t none e m = cc
  known_viewer t (some xs) e m = a.viewer_known d xs t e m

  pub known_ascending : (o : Option (List ℕ)) → lookup d hub.viewers ≡ o → IsAscending (or_empty o)
  known_ascending none e = tt
  known_ascending (some xs) e = a.ascending d xs e

module _ (hub : SignalingHub) (a : Agrees hub) (s : ℕ) (d : String)
    (fresh : lookup s hub.session_device ≡ none) where
  -- A session that the hub knows is another one.
  known_ne : (t : ℕ) {k : String} → lookup t hub.session_device ≡ some k → s ≢ t
  known_ne t e q = cc (fresh, e, q)

  registered :
      (role r : String) (t : ℕ) (k : String)
      → (lookup t hub.session_device ≡ some k) × (lookup t hub.session_role ≡ some r)
      → (lookup t (insert s d hub.session_device) ≡ some k)
        × (lookup t (insert s role hub.session_role) ≡ some r)
  registered role r t k (e, q) = (
    lookup-insert_ne s t d hub.session_device (known_ne t e) ∙ e,
    lookup-insert_ne s t role hub.session_role (known_ne t e) ∙ q,
  )

  newcomer :
      (role : String)
      → (lookup s (insert s d hub.session_device) ≡ some d)
        × (lookup s (insert s role hub.session_role) ≡ some role)
  newcomer role =
      (lookup-insert_self s d hub.session_device, lookup-insert_self s role hub.session_role)

  pub register_device-Agrees : (w : Wire) → Agrees (register_device w hub d s).1
  unfolding register_device
  register_device-Agrees w = record {
    device_known = λ k t e. elim (lookup-insert_inv d k s t hub.devices e) [
      | inl (p, q) ↦ rw (← p, ← q) (newcomer "device")
      | inr (p, q) ↦ registered "device" "device" t k (a.device_known k t q)
    ];
    viewer_known = λ k xs t e m. registered "device" "viewer" t k (a.viewer_known k xs t e m);
    ascending = a.ascending;
  }

  joined :
      (t : ℕ)
      → member t (add s (or_empty (lookup d hub.viewers))) ≡ true
      → (lookup t (insert s d hub.session_device) ≡ some d)
        × (lookup t (insert s "viewer" hub.session_role) ≡ some "viewer")
  joined t m = elim (Bool-cases (s == t)) [
    | inl q ↦ rw (← (==_iff s t).0 q) (newcomer "viewer")
    | inr q ↦ registered "viewer" "viewer" t d (
        known_viewer hub a d t _ refl
          (ground (arith, member-add s t (or_empty (lookup d hub.viewers)))))
  ]

  pub register_viewer-Agrees : Agrees (register_viewer hub d s)
  unfolding register_viewer
  register_viewer-Agrees = record {
    device_known = λ k t e. registered "viewer" "device" t k (a.device_known k t e);
    viewer_known = λ k xs t e m. elim (lookup-insert_inv d k _ xs hub.viewers e) [
      | inl (p, q) ↦ rw (← p) (joined t (rw (← q) at m))
      | inr (p, q) ↦ registered "viewer" "viewer" t k (a.viewer_known k xs t q m)
    ];
    ascending = λ k xs e. elim (lookup-insert_inv d k _ xs hub.viewers e) [
      | inl (p, q) ↦ rw (← q) (add-IsAscending s _ (known_ascending hub a d _ refl))
      | inr (p, q) ↦ a.ascending k xs q
    ];
  }

module _ (hub : SignalingHub) (a : Agrees hub) (d : String) where
  pub without_device-Agrees : Agrees (record hub { devices = erase d hub.devices })
  without_device-Agrees = record {
    device_known = λ k t e. a.device_known k t (lookup-erase_inv d k t hub.devices e).1;
    viewer_known = a.viewer_known;
    ascending = a.ascending;
  }

  pub without_viewers-Agrees : Agrees (record hub { viewers = erase d hub.viewers })
  without_viewers-Agrees = record {
    device_known = a.device_known;
    viewer_known = λ k xs t e m. a.viewer_known k xs t (lookup-erase_inv d k xs hub.viewers e).1 m;
    ascending = λ k xs e. a.ascending k xs (lookup-erase_inv d k xs hub.viewers e).1;
  }

  -- A set of viewers may be replaced by a part of it.
  pub fewer_viewers-Agrees :
      (ys : List ℕ)
      → IsAscending ys
      → ((t : ℕ) → member t ys ≡ true → member t (or_empty (lookup d hub.viewers)) ≡ true)
      → Agrees (record hub { viewers = insert d ys hub.viewers })
  fewer_viewers-Agrees ys asc part = record {
    device_known = a.device_known;
    viewer_known = λ k xs t e m. elim (lookup-insert_inv d k ys xs hub.viewers e) [
      | inl (p, q) ↦ rw (← p) (known_viewer hub a d t _ refl (part t (rw (← q) at m)))
      | inr (p, q) ↦ a.viewer_known k xs t q m
    ];
    ascending = λ k xs e. elim (lookup-insert_inv d k ys xs hub.viewers e) [
      | inl (p, q) ↦ rw (← q) asc
      | inr (p, q) ↦ a.ascending k xs q
    ];
  }

-- A session that stands nowhere can be forgotten.
pub forget-Agrees :
    (hub : SignalingHub) (s : ℕ)
    → Agrees hub
    → ((k : String) → lookup k hub.devices ≢ some s)
    → ((k : String) (xs : List ℕ) → lookup k hub.viewers ≡ some xs → member s xs ≡ false)
    → Agrees (forget s hub)
unfolding forget
forget-Agrees hub s a no_device no_viewer = record {
  device_known = λ k t e.
      let other : s ≢ t = λ q. no_device k (rw q e) in
      let (p, q) = a.device_known k t e in
      (
        lookup-erase_ne s t hub.session_device other ∙ p,
        lookup-erase_ne s t hub.session_role other ∙ q,
      );
  viewer_known = λ k xs t e m.
      let other : s ≢ t = λ q. cc (no_viewer k xs e, subst (λ x. member x xs ≡ true) (sym q) m) in
      let (p, q) = a.viewer_known k xs t e m in
      (
        lookup-erase_ne s t hub.session_device other ∙ p,
        lookup-erase_ne s t hub.session_role other ∙ q,
      );
  ascending = a.ascending;
}
