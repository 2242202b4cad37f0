-- ===== src/Lib.antt =====
-- A model of the core of the container manager: the daemon's operations, its checks of container
-- configurations and devices, its limits, the maps of user and group ids, the configurations of
-- networks, of storage and of the daemon itself, the trust in its clients, the schema of its data
-- base, and the images of its servers, with what holds of them. All of it is Go.
--
-- The parts, the files of the repository that they model, and how they meet:
-- - Idmap and its children: shared/idmapset_linux.go. Idmap has IdRange and IdmapEntry with the
--   entry's methods; Idmap/Set has IdmapSet (Append, AddSafe, ToLxcString, doShiftIntoNs,
--   ValidRanges); Idmap/Kernel has getFromShadow, getFromProc, CurrentIdmapSet and Usable;
--   Idmap/Defaults has DefaultIdmapSet. A container's ids are moved with these maps, and the daemon
--   keeps the default one, whose presence Container asks for. Idmap/Isolated has idmapSize,
--   parseRawIdmap and findIdmap of apollo/container_mercury.go, which give a container its own ids.
-- - Operation, Operation/Threads, Operation/Registry: apollo/operations.go, shared/api/status_code.go
--   and shared/cancel/canceler.go. Operation has the methods of an operation as functions on its
--   record; Threads has the same methods cut where another goroutine can come between, as a step
--   function on a system of Run's goroutine, one caller of Cancel, Cancel's goroutine and that of a
--   download (CancelableDownload), with the canceler that the hook of Run sets for it in
--   apollo/daemon_images.go; Registry
--   has the table of operations and its requests (operationCreate, operationAPIGet,
--   operationAPIDelete, operationAPIWaitGet, operationsAPIGet).
-- - Config: shared/container.go (IsInt64 to IsAny, KnownContainerConfigKeys, ConfigKeyChecker).
-- - Device: apollo/types/devices.go (Update, ExtendFromProfile, the order of the names).
-- - Container, Container/Devices: apollo/container.go (containerValidName, containerValidConfig,
--   containerValidDevices and their helpers) and ValidHostname of shared/util.go. They use Config and
--   Device.
-- - Container/Lock, Container/Raw, Container/Expand: apollo/container_mercury.go. Lock has the lock
--   of a container's operations (createOperation, getOperation, Done) as a step function on the table
--   and the goroutines; Raw has mercuryValidConfig; Expand has expandConfig, expandDevices and the
--   free interface name of fillNetworkDevice. Container/Update has the first part of Update, which
--   puts these together: the checks, the expansion, storageConfigDiff's loops and Devices.Update. It
--   ends before Update writes volatile keys of its own and changes the container.
-- - Arch: shared/osarch/architectures.go, whose names Update asks for.
-- - Network, Network/Config, Network/Address: apollo/networks_utils.go and apollo/networks_config.go
--   (the checks of values, networkValidateConfig, networkFillAuto, networkGetIP, networkFanAddress).
-- - Storage: apollo/storage_utils.go (storageConfigDiff, apolloResolveMountoptions) and the names of
--   apollo/storage_volumes_utils.go. Storage/Pool and Storage/Volume: apollo/storage_pools_config.go
--   and apollo/storage_volumes_config.go. Storage/Update: storagePoolUpdate of
--   apollo/storage_pools_utils.go and storagePoolVolumeUpdate of apollo/storage_volumes_utils.go,
--   which use storageConfigDiff.
-- - Server, Server/Request: apollo/daemon_config.go (daemonConfigKey with Validate, Set, Get and the
--   setters, daemonConfigInit, daemonConfigRender), dbConfigValueSet of apollo/db_config.go,
--   UpdateHTTPsPort of apollo/daemon.go and doApi10Update of apollo/api_1.0.go.
-- - Trust, Trust/Requests: apollo/certificates.go, apollo/db_certificates.go, and of apollo/daemon.go
--   isTrustedClient, CheckTrustState, PasswordCheck and the access check of createCmd. The password
--   is a key of Server.
-- - Schema: createDb, dbGetSchema of apollo/db.go, apollo/db_update.go (dbUpdates,
--   dbUpdatesApplyAll), patchesApplyAll of apollo/patches.go, apollo/db_patches.go and
--   initializeDbObject of apollo/daemon.go.
-- - Profile: doProfileUpdate of apollo/profiles_utils.go, with the checks of Container; the devices
--   that a container gets are those of Container/Expand.
-- - Streams and its children: shared/simplestreams/simplestreams.go. Streams has ToAPOLLO and the
--   order of the images, Streams/Aliases has applyAliases, and Streams/Client has the caches,
--   GetFiles, GetImage, GetAlias and Download.
-- - Cli: ParseRemote of mercury/config/remote.go, and dotPrefixMatch and shouldShow of mercury/list.go, whose
--   regular expressions are a parameter (Regexp).
-- - Limits: apollo/devices.go (parseCpuset, the loop of deviceTaskBalance over the containers to
--   balance, deviceParseCPU, deviceParseDiskLimit). It reads values that Config has checked.
-- - Size: ParseByteSizeString and ParseBitSizeString of shared/util.go.
-- - Strconv and Base: what these files use of Go's strconv and strings, on byte lists.
-- Each part has its theorems in a child Proofs and runs at concrete inputs in a child Tests.
--
-- Conventions. A string is the list of its bytes. An int64 or an int is its bit pattern, a natural
-- number below 2 ^ 64, with the wrap-around in add, sub and mul and the sign in lt and le. A map is
-- an association list in the order in which a loop walks it; where the order is free, the theorems
-- hold for each. An error is `none`, or a constructor where the code tells errors apart. Hooks of an
-- operation are truth values (set or nil), and their results are part of the schedule. Loops are
-- structural recursion; format_uint has n + 1 as its fuel, which is more than the digits of n,
-- resolve_loop has the number of options and free_name the number of taken names and one, and a
-- theorem of each says that this is enough. sort keeps the order of equal elements, as Go's does on
-- short slices, and is a parameter for images. The two shifts of doShiftIntoNs are the two values of `how` that the
-- code passes.
--
-- What the code asks of the system is a parameter: the lines of the shadow and kernel files (Host),
-- the data base, the file tests and the check of raw settings (Daemon), ids and times of operations,
-- the other containers (Containers), Go's package net (Net) and the random subnets (Subnets), the
-- size of the disk (Disk), the drivers of the storage (Backend), the profiles and the runtime of an
-- update (Source), the listener, the hash and the data base of the daemon (System), the certificates'
-- encodings, hashes and LIKE (Library), the bodies of updates and patches (Bodies), the containers of
-- a profile (World), and the network, the disk, time.Parse and sort.Sort of a client of simple
-- streams (Net).
--
-- Not modelled: the walk over a file tree that changes owners, the websocket of an operation, events
-- and logging, the hardware and cgroup part of apollo/devices.go, the calls of the container runtime,
-- the storage drivers, the commands that set up networks, migration, the other requests on images,
-- containers and profiles, the SQL statements of the data base, and the commands of
-- the clients. Each of them is
-- mostly calls of the system or of libraries. shared/gnuflag and dist are code of other projects.
pub mod Base
pub mod Arch
pub mod Strconv
pub mod Idmap
pub mod Operation
pub mod Size
pub mod Cli
pub mod Config
pub mod Device
pub mod Container
pub mod Limits
pub mod Network
pub mod Profile
pub mod Schema
pub mod Server
pub mod Storage
pub mod Streams
pub mod Trust
