-- ===== src/Gateway/Signaling/Stale.antt =====
-- A device that comes back under the same name, in gateway/src/signaling_hub.cpp.
use eye_d.Base.{ℕ, ◌≡◌, refl, ◌≢◌, Option, none, some, String, sym, Bool-cases, inl, inr}
use eye_d.Base.Assoc.{lookup, erase, lookup-insert, lookup-erase}
use eye_d.Base.Eq.{nat_Eq, string_Eq, same_self, same_ne}
use eye_d.Gateway.WsHub.{Wire}
use eye_d.Gateway.Signaling.{
  SignalingHub, register_device, unregister, leave, forget, is_device_role, or_blank,
}

unregister_device :
    (w : Wire) (hub : SignalingHub) (session : ℕ) (device_id : String)
    → lookup session hub.session_device ≡ some device_id
    → lookup session hub.session_role ≡ some "device"
    → (unregister w hub session).1
      ≡ forget session (record hub { devices = erase device_id hub.devices })
unfolding unregister
unregister_device w hub session device_id e r = rw (e, leave) (rw (r, leave))

leave_forgets :
    (w : Wire) (hub : SignalingHub) (s : ℕ) (o : Option String)
    → lookup s hub.session_device ≡ o
    → lookup s (leave w hub s o).1.session_device ≡ none
unfolding leave forget
leave_forgets w hub s none e = e
leave_forgets w hub s (some d) e =
    elim (Bool-cases (is_device_role (or_blank (lookup s hub.session_role)))) [
      | inl r ↦ rw (r, leave) gone
      | inr r ↦ rw (r, leave) gone
    ]
  where
    gone : lookup s (erase s hub.session_device) ≡ none
    gone = rw (lookup-erase s s hub.session_device, same_self s)

pub unregister_forgets :
    (w : Wire) (hub : SignalingHub) (s : ℕ) → lookup s (unregister w hub s).1.session_device ≡ none
unfolding unregister
unregister_forgets w hub s = leave_forgets w hub s _ refl

-- A device session comes, another one comes for the same device, and then the first one ends: no
-- device is left under that name, though the second session is still registered as it.
pub unregister_stale :
    (w : Wire) (hub : SignalingHub) (device_id : String) (first second : ℕ)
    → first ≢ second
    → let hub' =
        (unregister w
          (register_device w (register_device w hub device_id first).1 device_id second).1
          first).1 in
      (lookup device_id hub'.devices ≡ none)
      × (lookup second hub'.session_device ≡ some device_id)
      × (lookup second hub'.session_role ≡ some "device")
unfolding register_device
unregister_stale w hub device_id first second h =
    let once = (register_device w hub device_id first).1 in
    let twice = (register_device w once device_id second).1 in
    let other = same_ne second first (λ e. h (sym e)) in
    let device_of_first : lookup first twice.session_device ≡ some device_id = rw (
      lookup-insert second first device_id once.session_device,
      other,
      lookup-insert first first device_id hub.session_device,
      same_self first,
    ) in
    let role_of_first : lookup first twice.session_role ≡ some "device" = rw (
      lookup-insert second first "device" once.session_role,
      other,
      lookup-insert first first "device" hub.session_role,
      same_self first,
    ) in
    rw (unregister_device w twice first device_id device_of_first role_of_first) (
      unfold forget in
      (
        rw (lookup-erase device_id device_id twice.devices, same_self device_id),
        rw (
          lookup-erase first second twice.session_device,
          same_ne first second h,
          lookup-insert second second device_id once.session_device,
          same_self second,
        ),
        rw (
          lookup-erase first second twice.session_role,
          same_ne first second h,
          lookup-insert second second "device" once.session_role,
          same_self second,
        ),
      ))
