-- ===== src/Streams/Client.antt =====
-- The client of a simple streams server and its caches: shared/simplestreams/simplestreams.go parseIndex,
-- parseManifest, getImages, GetFiles, GetImage, GetAlias, downloadFile and Download.
use mercuryc.Base.{
  ℕ, Bytes, List, [], ◌∷◌, ◌++◌, Option, none, some, Bool, true, false, ◌&&◌, not, if◌then◌else◌,
  codes, bytes_eq, has_prefix, is_empty,
}
use mercuryc.Base.Dict.{find, put}
use mercuryc.Streams.{Product, Image, Download, to_apollo}
use mercuryc.Streams.Aliases.{apply_aliases, trim_prefix}

-- SimpleStreamsIndexStream
pub record IndexStream : Type 0 where
  pub data_type : Bytes
  pub path : Bytes
  pub products : List Bytes

-- What a GET of a file brings: no answer with status 200, a body that breaks off, or a whole one.
pub data Fetch : Type 0 where
  refused : Fetch
  broken whole : Bytes → Fetch

-- What is called of the network, the disk and the libraries during one call: the index and a manifest,
-- fetched and decoded, a file, whether a file can be created, the hash in hexadecimal digits, time.Parse,
-- sort.Sort, and the name of the machine's architecture.
pub record Net : Type 0 where
  pub index : Option (List IndexStream)
  pub manifest : Bytes → Option (List (Bytes × Product))
  pub fetch : Bytes → Fetch
  pub creates : Bool
  pub sha256 : Bytes → Bytes
  pub parse_time : Bool → Bytes → Option ℕ
  pub sort : List Image → List Image
  pub local : Bytes

-- SimpleStreams
pub record SimpleStreams : Type 0 where
  pub url : Bytes
  pub cached_index : Option (List IndexStream)
  pub cached_manifest : List (Bytes × List (Bytes × Product))
  pub cached_images : Option (List Image × List (Bytes × Bytes))

-- parseIndex
unfoldable pub parse_index : Net → SimpleStreams → SimpleStreams × Option (List IndexStream)
parse_index net s = elim s.cached_index [
  | some index ↦ (s, some index)
  | none ↦ elim net.index [
    | none ↦ (s, none)
    | some index ↦ (record s { cached_index = some index }, some index)
  ]
]

-- parseManifest
unfoldable pub parse_manifest :
    Net → SimpleStreams → Bytes → SimpleStreams × Option (List (Bytes × Product))
parse_manifest net s path = elim (find path s.cached_manifest) [
  | some manifest ↦ (s, some manifest)
  | none ↦ elim (net.manifest path) [
    | none ↦ (s, none)
    | some manifest ↦
        (record s { cached_manifest = put path manifest s.cached_manifest }, some manifest)
  ]
]

-- Is this a stream of images, with some?
abbrev pub has_images : IndexStream → Bool
has_images entry =
    bytes_eq entry.data_type (codes "image-downloads") && not (is_empty entry.products)

-- The loop of getImages over the index.
unfoldable pub index_loop :
    Net → SimpleStreams → List IndexStream → List Image → SimpleStreams × Option (List Image)
unfolding parse_manifest
index_loop net s [] images = (s, some images)
index_loop net s (entry ∷ entries) images = elim (has_images entry) [
  | false ↦ index_loop net s entries images
  | true ↦
      let r = parse_manifest net s entry.path in
      elim r.1 [
        | none ↦ (r.0, none)
        | some manifest ↦
            index_loop net r.0 entries (images ++ (to_apollo net.parse_time manifest).0)
      ]
]

-- getImages
unfoldable pub get_images :
    Net → SimpleStreams → SimpleStreams × Option (List Image × List (Bytes × Bytes))
unfolding parse_index index_loop
get_images net s = elim s.cached_images [
  | some r ↦ (s, some r)
  | none ↦
      let i = parse_index net s in
      elim i.1 [
        | none ↦ (i.0, none)
        | some index ↦
            let l = index_loop net i.0 index [] in
            elim l.1 [
              | none ↦ (l.0, none)
              | some images ↦
                  let r = apply_aliases net.sort net.local s.url images in
                  (record l.0 { cached_images = some r }, some r)
            ]
      ]
]

-- The first of the images whose fingerprint starts with the text.
unfoldable pub first_match : Bytes → List Image → Option Image
first_match fingerprint [] = none
first_match fingerprint (image ∷ images) =
    let rest = first_match fingerprint images in
    if has_prefix image.fingerprint fingerprint then some image else rest

-- The files of an image by kind; the sizes are written and read back.
abbrev pub files_of : List Download → List (Bytes × Download) → List (Bytes × Download)
files_of [] files = files
files_of (d ∷ downloads) files = files_of downloads (put d.kind d files)

-- The loop of GetFiles over the index.
unfoldable pub files_loop :
    Net
    → SimpleStreams
    → Bytes
    → List IndexStream
    → SimpleStreams × Option (List (Bytes × Download))
unfolding parse_manifest first_match
files_loop net s fingerprint [] = (s, none)
files_loop net s fingerprint (entry ∷ entries) = elim (has_images entry) [
  | false ↦ files_loop net s fingerprint entries
  | true ↦
      let r = parse_manifest net s entry.path in
      elim r.1 [
        | none ↦ (r.0, none)
        | some manifest ↦
            let p = to_apollo net.parse_time manifest in
            elim (first_match fingerprint p.0) [
              | none ↦ files_loop net r.0 fingerprint entries
              | some image ↦ elim (find image.fingerprint p.1) [
                | none ↦ (r.0, some [])
                | some downloads ↦ (r.0, some (files_of downloads []))
              ]
            ]
      ]
]

-- GetFiles
unfoldable pub get_files :
    Net → SimpleStreams → Bytes → SimpleStreams × Option (List (Bytes × Download))
unfolding parse_index files_loop
get_files net s fingerprint =
    let i = parse_index net s in
    elim i.1 [ none ↦ (i.0, none) | some index ↦ files_loop net i.0 fingerprint index ]

unfoldable pub matches : Bytes → List Image → List Image
matches fingerprint [] = []
matches fingerprint (image ∷ images) =
    let rest = matches fingerprint images in
    if has_prefix image.fingerprint fingerprint then image ∷ rest else rest

-- The only element of a list.
abbrev pub the_only : List Image → Option Image
the_only [] = none
the_only (image ∷ []) = some image
the_only (image ∷ next ∷ images) = none

-- GetImage
unfoldable pub get_image : Net → SimpleStreams → Bytes → SimpleStreams × Option Image
unfolding get_images matches
get_image net s fingerprint =
    let r = get_images net s in
    (r.0, elim r.1 [ none ↦ none | some p ↦ the_only (matches fingerprint p.0) ])

-- GetAlias
unfoldable pub get_alias : Net → SimpleStreams → Bytes → SimpleStreams × Option Bytes
unfolding get_images
get_alias net s name =
    let r = get_images net s in (r.0, elim r.1 [ none ↦ none | some p ↦ find name p.1 ])

-- One attempt of downloadFile: what is then in the target, and whether it succeeds.
unfoldable pub download_from : Net → Bytes → Bytes → Option Bytes → Option Bytes × Bool
download_from net url hash target =
    if not net.creates then (target, false) else elim (net.fetch url) [
      | refused ↦ (some [], false)
      | broken body ↦ (some body, false)
      | whole body ↦ if bytes_eq (net.sha256 body) hash then (some body, true) else (none, false)
    ]

-- downloadFile: by plain http first.
unfoldable pub download_file : Net → Bytes → Bytes → Bytes → Option Bytes → Option Bytes × Bool
unfolding download_from trim_prefix
download_file net url path hash target =
    let insecure = codes "http://" ++ trim_prefix url (codes "https://") ++ codes "/" ++ path in
    let first =
      if has_prefix url (codes "https://")
      then download_from net insecure hash target
      else (target, false) in
    if first.1 then first else download_from net (url ++ codes "/" ++ path) hash first.0

-- Download
unfoldable pub download :
    Net → SimpleStreams → Bytes → Bytes → Option Bytes → SimpleStreams × Option Bytes × Bool
unfolding get_files download_file
download net s image kind target =
    let r = get_files net s image in
    elim r.1 [
      | none ↦ (r.0, target, false)
      | some files ↦ elim (find kind files) [
        | none ↦ (r.0, target, false)
        | some file ↦
            let d = download_file net s.url file.path file.sha256 target in (r.0, d.0, d.1)
      ]
    ]
