-- ===== src/Ownership/Abandonment.antt =====
-- What giving up a device, or all of them, leaves (rw_core/core/device_ownership.go).
use vol_2619_voltha_go.Prelude.{
  ℕ, String, true, false, Option, none, some, [], ◌∷◌, ◌≡◌, ◌≢◌, refl, arith, str_eq, eq_refl,
  eq_iff, if◌then◌else◌, All, Map, lookup, delete, string_key, lookup-delete, Bool-cases, inl, inr,
  ◌∙◌, ap,
}
use vol_2619_voltha_go.Status.{Code}
use vol_2619_voltha_go.Status.{Run, returned, panicked, and_then}
use vol_2619_voltha_go.Ownership.{
  Ownership, DeviceOwnership, get_ownership, ownership_of, close_channel, close_all, abandon,
  abandon_device, abandon_all_devices, stop, is_closed,
}
use vol_2619_voltha_go.Ownership.Tables.{IsConsistent, drop_refs-ne}
use vol_2619_voltha_go.Ownership.Invariant.{Returns, close_open}

-- What is left after the device `id` was given up in the state `da`.
pub record IsAbandoned (id : String) (da : DeviceOwnership) (r : DeviceOwnership × Option Code)
    : Type 0 where
  pub no_error : r.1 ≡ none
  pub unknown : get_ownership id r.0 ≡ (false, false)
  pub uncached : All (λ e. str_eq id e.1 ≡ false) r.0.device_to_key_map
  pub others : (j : String) → id ≢ j → get_ownership j r.0 ≡ get_ownership j da

get_ownership-delete :
    (id j : String) (da : DeviceOwnership)
    → ownership_of (lookup j (delete id da.device_map))
      ≡ (if str_eq id j then (false, false) else get_ownership j da)
unfolding get_ownership
get_ownership-delete id j da = ground (arith, lookup-delete id j da.device_map)

ne→false : (a b : String) → a ≢ b → str_eq a b ≡ false
ne→false a b h = ground (arith, eq_iff a b)

-- Giving up a known device by its own identifier succeeds: the core no longer knows the device and
-- has no cached key that names it, and what it knows of the other devices is as before.
pub abandon_device-IsAbandoned :
    (id : String) (da : DeviceOwnership) (o : Ownership)
    → IsConsistent da
    → id ≢ ""
    → lookup id da.device_map ≡ some o
    → Returns (IsAbandoned id da) (abandon_device id da)
unfolding abandon_device
abandon_device-IsAbandoned id da o h ne found = rw (ne→false id "" ne) (
    rw found (
      rw (close_open o da h id found) (record {
        no_error = refl;
        unknown = unfold get_ownership in get_ownership-delete id id da ∙ rw (eq_refl id);
        uncached = drop_refs-ne id da.device_to_key_map;
        others = λ j d. unfold get_ownership in get_ownership-delete id j da ∙ rw (ne→false id j d);
      })))

close_channel-keeps :
    (c d : ℕ) (da da' : DeviceOwnership)
    → close_channel d da ≡ returned da'
    → is_closed c da.closed ≡ true
    → is_closed c da'.closed ≡ true
unfolding close_channel
close_channel-keeps c d da da' e h = ground arith

close_channel-closes :
    (c : ℕ) (da da' : DeviceOwnership)
    → close_channel c da ≡ returned da'
    → (is_closed c da'.closed ≡ true) × (da'.device_map ≡ da.device_map)
unfolding close_channel
close_channel-closes c da da' e = ground arith

and_then-returned :
    (m : Run DeviceOwnership) (f : DeviceOwnership → Run DeviceOwnership) (r : DeviceOwnership)
    → and_then m f ≡ returned r
    → (s : DeviceOwnership) × (m ≡ returned s) × (f s ≡ returned r)
and_then-returned (returned s) f r e = (s, refl, e)
and_then-returned panicked f r e = cc

close_all-keeps :
    (m : Map String Ownership) (c : ℕ) (da da' : DeviceOwnership)
    → close_all m da ≡ returned da'
    → is_closed c da.closed ≡ true
    → is_closed c da'.closed ≡ true
unfolding close_all
close_all-keeps [] c da da' e h = ground arith
close_all-keeps ((k, o) ∷ m) c da da' e h =
    let (s, e1, e2) = and_then-returned (close_channel o.chnl da) (close_all m) da' e in
    close_all-keeps m c s da' e2 (close_channel-keeps c o.chnl da s e1 h)

close_all-closes :
    (m : Map String Ownership) (id : String) (o : Ownership) (da da' : DeviceOwnership)
    → close_all m da ≡ returned da'
    → lookup id m ≡ some o
    → is_closed o.chnl da'.closed ≡ true
unfolding close_all lookup
close_all-closes [] id o da da' e h = cc
close_all-closes ((k, p) ∷ m) id o da da' e h =
    let (s, e1, e2) = and_then-returned (close_channel p.chnl da) (close_all m) da' e in
    elim (Bool-cases (str_eq k id)) [
      | inl same ↦
          let at : p ≡ o = cc (h, same) in
          rw (← at) (close_all-keeps m p.chnl s da' e2 (close_channel-closes p.chnl da s e1).0)
      | inr other ↦ close_all-closes m id o s da' e2 (rw other at h)
    ]

close_all-device_map :
    (m : Map String Ownership) (da da' : DeviceOwnership)
    → close_all m da ≡ returned da'
    → da'.device_map ≡ da.device_map
unfolding close_all
close_all-device_map [] da da' e = ground arith
close_all-device_map ((k, p) ∷ m) da da' e =
    let (s, e1, e2) = and_then-returned (close_channel p.chnl da) (close_all m) da' e in
    close_all-device_map m s da' e2 ∙ (close_channel-closes p.chnl da s e1).1

-- After a stop the table of devices still holds the devices whose channels the stop has closed: giving
-- up any of them then closes its channel a second time, and panics.
pub abandon_device-stop :
    (da da' : DeviceOwnership) (id : String) (o : Ownership)
    → id ≢ ""
    → lookup id da.device_map ≡ some o
    → stop da ≡ returned da'
    → abandon_device id da' ≡ panicked
unfolding abandon_device stop abandon_all_devices
abandon_device-stop da da' id o ne found e = rw (ne→false id "" ne) (
    ap (abandon id da') (ap (lookup id) (close_all-device_map da.device_map _ da' e) ∙ found)
    ∙ again (close_all-closes da.device_map id o _ da' e found))
  where
    again : is_closed o.chnl da'.closed ≡ true → abandon id da' (some o) ≡ panicked
    again h = unfold close_channel in rw h
