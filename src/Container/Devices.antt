-- ===== src/Container/Devices.antt =====
-- The validation of a container's devices: containerValidDeviceConfigKey, isRootDiskDevice,
-- containerGetRootDiskDevice and containerValidDevices of apollo/container.go.
use mercuryc.Base.{
  Bytes, List, [], ◌∷◌, ◌++◌, Option, none, some, Bool, true, false, ◌&&◌, ◌||◌, not, if◌then◌else◌,
  ◌>>=◌, codes, bytes_eq, is_empty, string_in_slice, has_prefix,
}
use mercuryc.Base.Dict.{find, is_some}
use mercuryc.Device.{Device, Devices, get}
use mercuryc.Container.{Daemon}

-- The keys that containerValidDeviceConfigKey accepts for a type.
unfoldable pub device_keys : Bytes → List Bytes
device_keys t =
    if bytes_eq t (codes "unix-char") || bytes_eq t (codes "unix-block")
    then codes "gid"
      ∷ codes "major"
      ∷ codes "minor"
      ∷ codes "mode"
      ∷ codes "source"
      ∷ codes "path"
      ∷ codes "uid"
      ∷ []
    else if bytes_eq t (codes "nic")
    then codes "limits.max"
      ∷ codes "limits.ingress"
      ∷ codes "limits.egress"
      ∷ codes "host_name"
      ∷ codes "hwaddr"
      ∷ codes "mtu"
      ∷ codes "name"
      ∷ codes "nictype"
      ∷ codes "parent"
      ∷ codes "vlan"
      ∷ codes "ipv4.address"
      ∷ codes "ipv6.address"
      ∷ codes "security.mac_filtering"
      ∷ []
    else if bytes_eq t (codes "disk")
    then codes "limits.max"
      ∷ codes "limits.read"
      ∷ codes "limits.write"
      ∷ codes "optional"
      ∷ codes "path"
      ∷ codes "readonly"
      ∷ codes "size"
      ∷ codes "source"
      ∷ codes "recursive"
      ∷ codes "pool"
      ∷ []
    else if bytes_eq t (codes "usb")
    then codes "vendorid"
      ∷ codes "productid"
      ∷ codes "mode"
      ∷ codes "gid"
      ∷ codes "uid"
      ∷ codes "required"
      ∷ []
    else if bytes_eq t (codes "gpu")
    then codes "vendorid"
      ∷ codes "productid"
      ∷ codes "id"
      ∷ codes "pci"
      ∷ codes "mode"
      ∷ codes "gid"
      ∷ codes "uid"
      ∷ []
    else []

unfoldable pub valid_device_config_key : Bytes → Bytes → Bool
unfolding device_keys
valid_device_config_key t k = bytes_eq k (codes "type") || string_in_slice k (device_keys t)

-- isRootDiskDevice
unfoldable pub is_root_disk_device : Device → Bool
is_root_disk_device device =
    bytes_eq (get (codes "type") device) (codes "disk")
    && (bytes_eq (get (codes "path") device) (codes "/") && is_empty (get (codes "source") device))

-- The loop of containerGetRootDiskDevice, from the values of devName and dev; `none` is the error
-- of a second root device.
unfoldable pub root_loop : Devices → Bytes → Device → Option (Bytes × Device)
root_loop [] dev_name dev = some (dev_name, dev)
root_loop ((n, d) ∷ devices) dev_name dev =
    let next = root_loop devices dev_name dev in
    let taken = root_loop devices n d in
    if is_root_disk_device d then if is_empty dev_name then taken else none else next

-- containerGetRootDiskDevice; `none` is either of its errors.
unfoldable pub get_root_disk_device : Devices → Option (Bytes × Device)
unfolding root_loop
get_root_disk_device devices = do
  (dev_name, dev) ← root_loop devices [] []
  if is_empty dev_name then none else some (dev_name, dev)

-- The type is one of the seven that the code lists.
unfoldable pub valid_type : Bytes → Bool
valid_type t =
    not (is_empty t)
    && string_in_slice t (
        codes "none"
        ∷ codes "nic"
        ∷ codes "disk"
        ∷ codes "unix-char"
        ∷ codes "unix-block"
        ∷ codes "usb"
        ∷ codes "gpu"
        ∷ [])

unfoldable pub valid_keys : Bytes → Device → Bool
valid_keys t [] = true
valid_keys t ((k, v) ∷ m) = valid_device_config_key t k && valid_keys t m

unfoldable pub valid_nic : Device → Bool
valid_nic m =
    let nictype = get (codes "nictype") m in
    if is_empty nictype
    then false
    else if not (
        string_in_slice nictype
          (codes "bridged" ∷ codes "physical" ∷ codes "p2p" ∷ codes "macvlan" ∷ []))
    then false
    else if string_in_slice nictype (codes "bridged" ∷ codes "physical" ∷ codes "macvlan" ∷ [])
        && is_empty (get (codes "parent") m)
    then false
    else true

-- The checks of a disk behind that of its path against the other disks.
unfoldable pub valid_disk : Daemon → Device → Bool
valid_disk d m =
    let path = get (codes "path") m in
    let source = get (codes "source") m in
    let root = bytes_eq path (codes "/") in
    if is_empty path
    then false
    else if is_empty source && not root
    then false
    else if root && not (is_empty source)
    then false
    else if not (is_empty (get (codes "size") m)) && not root
    then false
    else if (root || not (d.is_dir source)) && not (is_empty (get (codes "recursive") m))
    then false
    else if not (is_empty (get (codes "pool") m))
    then not (has_prefix source (codes "/")) && d.pool_exists (get (codes "pool") m)
    else true

-- The path of a unix device on the host: its source, if that key is there.
unfoldable pub unix_source : Device → Bytes
unix_source m = elim (find (codes "source") m) [
  | none ↦ get (codes "path") m
  | some source ↦ source
]

unfoldable pub valid_unix : Daemon → Bytes → Device → Bool
unfolding unix_source
valid_unix d t m =
    if is_empty (get (codes "source") m) && is_empty (get (codes "path") m)
    then false
    else if is_empty (get (codes "major") m) || is_empty (get (codes "minor") m)
    then if not (d.path_exists (unix_source m))
      then false
      else elim (d.device_type (unix_source m)) [
        | none ↦ false
        | some kind ↦
            not (bytes_eq t (codes "unix-char") && not (bytes_eq kind (codes "c")))
            && not (bytes_eq t (codes "unix-block") && not (bytes_eq kind (codes "b")))
      ]
    else true

-- The checks of one device that look at that device alone.
unfoldable pub valid_device : Daemon → Device → Bool
unfolding valid_type valid_keys valid_nic valid_disk valid_unix
valid_device d m =
    let t = get (codes "type") m in
    if not (valid_type t)
    then false
    else if not (valid_keys t m)
    then false
    else if bytes_eq t (codes "nic")
    then valid_nic m
    else if bytes_eq t (codes "disk")
    then valid_disk d m
    else if bytes_eq t (codes "unix-char") || bytes_eq t (codes "unix-block")
    then valid_unix d t m
    else if bytes_eq t (codes "usb")
    then not (is_empty (get (codes "vendorid") m))
    else bytes_eq t (codes "gpu") || bytes_eq t (codes "none")

unfoldable pub is_disk : Device → Bool
is_disk m = bytes_eq (get (codes "type") m) (codes "disk")

-- The loop of containerValidDevices, from the paths of the disks so far.
unfoldable pub devices_loop : Daemon → Bool → List Bytes → Devices → Bool
unfolding is_disk
devices_loop d expanded paths [] = true
devices_loop d expanded paths ((name, m) ∷ devices) =
    let path = get (codes "path") m in
    let tracked = is_disk m && not expanded in
    let rest = devices_loop d expanded (if tracked then paths ++ path ∷ [] else paths) devices in
    if not (valid_device d m)
    then false
    else if tracked && string_in_slice path paths
    then false
    else rest

-- containerValidDevices; `none` is a nil map.
unfoldable pub valid_devices : Daemon → Option Devices → Bool → Bool
unfolding devices_loop
valid_devices d none expanded = true
valid_devices d (some devices) expanded =
    if not (devices_loop d expanded [] devices)
    then false
    else if expanded
    then is_some (get_root_disk_device devices)
    else true
