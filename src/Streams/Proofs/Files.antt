-- ===== src/Streams/Proofs/Files.antt =====
-- The files of the images, and their download.
use mercuryc.Base.{
  Bytes, List, ◌++◌, Option, none, some, Bool, true, false, ◌≡◌, arith, refl, bytes_eq, codes,
}
use mercuryc.Base.Dict.{find}
use mercuryc.Streams.{Download}
use mercuryc.Streams.Aliases.{trim_prefix}
use mercuryc.Streams.Client.{Net, SimpleStreams, get_files, download_from, download_file, download}

-- Is the file in the target whole, with the hash?
abbrev pub has_hash : Net → Bytes → Option Bytes → Bool
has_hash net hash none = false
has_hash net hash (some body) = bytes_eq (net.sha256 body) hash

download_from-has_hash :
    (net : Net) (url hash : Bytes) (target : Option Bytes)
    → (download_from net url hash target).1 ≡ true
    → has_hash net hash (download_from net url hash target).0 ≡ true
unfolding download_from
download_from-has_hash net url hash target h = ground arith

download_file-has_hash :
    (net : Net) (url path hash : Bytes) (target : Option Bytes)
    → (download_file net url path hash target).1 ≡ true
    → has_hash net hash (download_file net url path hash target).0 ≡ true
unfolding download_file
download_file-has_hash net url path hash target h =
    let insecure = codes "http://" ++ trim_prefix url (codes "https://") ++ codes "/" ++ path in
    let first = download_from net insecure hash target in
    ground (
      arith,
      download_from-has_hash net insecure hash target,
      download_from-has_hash net (url ++ codes "/" ++ path) hash first.0,
      download_from-has_hash net (url ++ codes "/" ++ path) hash target,
    )

-- If Download succeeds then GetFiles has a file of that kind for the image, and the target holds a whole
-- body with the hash that GetFiles gives for it, by which of the two ways it came.
pub download_lem :
    (net : Net) (s : SimpleStreams) (image kind : Bytes) (target : Option Bytes)
    → (download net s image kind target).2 ≡ true
    → (files : List (Bytes × Download)) × (file : Download) × ((get_files net s image).1
        ≡ some files)
      × (find kind files ≡ some file)
      × (has_hash net file.sha256 (download net s image kind target).1 ≡ true)
unfolding download
download_lem net s image kind target h = by_files (get_files net s image).1 refl
  where
    by_files :
        (o : Option (List (Bytes × Download)))
        → (get_files net s image).1 ≡ o
        → (files : List (Bytes × Download)) × (file : Download) × ((get_files net s image).1
            ≡ some files)
          × (find kind files ≡ some file)
          × (has_hash net file.sha256 (download net s image kind target).1 ≡ true)
    by_files none e = ground arith
    by_files (some files) e = by_file (find kind files) refl
      where
        by_file :
            (o : Option Download)
            → find kind files ≡ o
            → (files : List (Bytes × Download)) × (file : Download) × ((get_files net s image).1
                ≡ some files)
              × (find kind files ≡ some file)
              × (has_hash net file.sha256 (download net s image kind target).1 ≡ true)
        by_file none f = ground arith
        by_file (some file) f = (
          files,
          file,
          e,
          f,
          ground (arith, download_file-has_hash net s.url file.path file.sha256 target),
        )
