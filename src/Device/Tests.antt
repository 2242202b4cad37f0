-- ===== src/Device/Tests.antt =====
-- The theorems on devices at concrete devices.
use mercuryc.Base.{
  Bytes, List, [], ◌∷◌, Option, none, some, Bool, true, false, ◌≡◌, ◌↔◌, refl, codes,
}
use mercuryc.Base.Dict.{find}
use mercuryc.Device.{Device, Devices, update}
use mercuryc.Device.Proofs.Update.{update_applies, applied, same_device}

abbrev disk : Bytes → Device
disk path = (codes "type", codes "disk") ∷ (codes "path", path) ∷ []

abbrev nic : Device
nic = (codes "type", codes "nic") ∷ (codes "name", codes "eth0") ∷ []

abbrev olds : Devices
olds = (codes "a", disk (codes "/")) ∷ (codes "b", nic) ∷ []

abbrev news : Devices
news = (codes "a", (codes "limits.read", codes "1MB") ∷ disk (codes "/")) ∷ (codes "c", nic) ∷ []

update_applies_example :
    same_device (applied olds (update olds news) (codes "a")) (find (codes "a") news) ≡ true
unfolding find mercuryc.Base.bytes_eq
update_applies_example = update_applies olds news (codes "a") refl refl
