-- ===== src/DeviceImages.antt =====
-- rw_core/core/device_agent.go: the image downloads of a device. A slice may be nil, none here, and so may
-- its entries: the field of a nil entry panics. Every operation changes a copy of the device, which
-- replaces the agent's own one when it is stored. The adapter and the data model are parameters.
pub mod Nothing
pub mod NoNil
pub mod NilEntries
use vol_2619_voltha_go.Prelude.{
  ℕ, zero, suc, String, str_eq, Bool, true, false, Option, none, some, List, [], ◌∷◌, ◌++◌, ◌&&◌,
  ◌||◌, not, if◌then◌else◌, length,
}
use vol_2619_voltha_go.Status.{
  Code, failed_precondition, internal, not_found, Result, ok, err, Run, returned, panicked,
  and_then, ◌▸◌,
}
use vol_2619_voltha_go.Transitions.{AdminState, enabled, downloading_image, same_admin}
use vol_2619_voltha_go.DeviceAgent.{Device}

pub data DownloadState : Type 0 where
  download_unknown download_succeeded download_requested download_started : DownloadState
  download_failed download_unsupported download_cancelled : DownloadState

pub data ImageState : Type 0 where
  image_unknown image_inactive image_activating image_active image_reverting : ImageState
  image_reverted : ImageState

pub record Image : Type 0 where
  pub id : String
  pub name : String
  pub download_state : DownloadState
  pub image_state : ImageState

-- A device with its image downloads.
pub record ImageDevice : Type 0 where
  pub device : Device
  pub image_downloads : Option (List (Option Image))

pub data ImageCall : Type 0 where
  call_download_image call_cancel_image_download call_activate_image_update : ImageCall
  call_revert_image_update call_get_image_download_status : ImageCall

-- The agent, with the calls of the adapter that it has made, the last one first.
pub record ImageAgent : Type 0 where
  pub device : ImageDevice
  pub calls : List (ImageCall × (ImageDevice × Image))

-- The error of a call, and whether the data model has an updated node.
pub record Surroundings : Type 0 where
  pub call : ImageCall → ImageDevice → Image → Option Code
  pub update : ImageDevice → Result Bool

abbrev pub stored : Result Bool → ImageDevice → ImageAgent → ImageAgent × Option Code
stored (err c) d a = (a, some internal)
stored (ok false) d a = (a, some internal)
stored (ok true) d a = (record a { device = d }, none)

unfoldable pub call_adapter :
    Surroundings → ImageCall → ImageDevice → Image → ImageAgent → ImageAgent × Option Code
call_adapter E c d img a = (record a { calls = (c, (d, img)) ∷ a.calls }, E.call c d img)

unfoldable pub same_image : Image → Image → Bool
same_image image img = str_eq image.id img.id && str_eq image.name img.name

abbrev pub entries : Option (List (Option Image)) → List (Option Image)
entries none = []
entries (some images) = images

unfoldable pub is_image_registered : Image → List (Option Image) → Run Bool
is_image_registered img [] = returned false
is_image_registered img (none ∷ images) = panicked
is_image_registered img (some image ∷ images) =
    let rest = is_image_registered img images in
    if same_image image img then returned true else rest

-- The loop that changes the state of an image, in each entry that is the image.
unfoldable pub with_state :
    (Image → Image) → Image → List (Option Image) → Run (List (Option Image))
with_state change img [] = returned []
with_state change img (none ∷ images) = panicked
with_state change img (some image ∷ images) =
    let rest = with_state change img images in
    and_then rest
      (λ later. returned (some (if same_image image img then change image else image) ∷ later))

abbrev pub with_images : ImageDevice → List (Option Image) → ImageDevice
with_images d images = record d {
  image_downloads = elim (d.image_downloads) [ none ↦ none | some old ↦ some images ];
}

abbrev pub with_admin : AdminState → ImageDevice → ImageDevice
with_admin s d = record d { device = record (d.device) { admin_state = s } }

-- The checks of the branch for a slice that is not nil are made twice, on equal copies.
unfoldable pub download_image : Surroundings → Image → ImageAgent → ImageAgent × Option Code
download_image E img a =
    let d = a.device in
    let image = record img { download_state = download_requested } in
    if not (same_admin d.device.admin_state enabled)
    then (a, some failed_precondition)
    else elim (d.image_downloads) [
      | none ↦ (a, none)
      | some images ↦
          stored
            (E.update (with_admin downloading_image (with_images d (images ++ some image ∷ []))))
            (with_admin downloading_image (with_images d (images ++ some image ∷ []))) a
          ▸ call_adapter E call_download_image
              (with_admin downloading_image (with_images d (images ++ some image ∷ []))) image
    ]

abbrev pub cancel_with :
    Surroundings → Image → ImageAgent → List (Option Image) → ImageAgent × Option Code
cancel_with E img a images =
    let d = a.device in
    if same_admin d.device.admin_state downloading_image
    then stored (E.update (with_admin enabled (with_images d images)))
        (with_admin enabled (with_images d images)) a
      ▸ call_adapter E call_cancel_image_download d img
    else (a, none)

-- A change of an image that is registered, with what is done with the list that it leaves.
abbrev pub on_registered :
    Run Bool → ImageAgent → Run (ImageAgent × Option Code) → Run (ImageAgent × Option Code)
on_registered panicked a then_do = panicked
on_registered (returned false) a then_do = returned (a, some failed_precondition)
on_registered (returned true) a then_do = then_do

unfoldable pub cancel_image_download :
    Surroundings → Image → ImageAgent → Run (ImageAgent × Option Code)
cancel_image_download E img a =
    let images = entries a.device.image_downloads in
    on_registered (is_image_registered img images) a (
      and_then (with_state (λ i. record i { download_state = download_cancelled }) img images)
        (λ changed. returned (cancel_with E img a changed)))

abbrev pub send_changed :
    Surroundings → ImageCall → Image → ImageDevice → ImageAgent → ImageAgent × Option Code
send_changed E c img d a = stored (E.update d) d a ▸ call_adapter E c d img

unfoldable pub activate_image : Surroundings → Image → ImageAgent → Run (ImageAgent × Option Code)
activate_image E img a =
    let images = entries a.device.image_downloads in
    on_registered (is_image_registered img images) a (
      if same_admin a.device.device.admin_state downloading_image
      then returned (a, some failed_precondition)
      else and_then (with_state (λ i. record i { image_state = image_activating }) img images)
          (λ changed. returned (
            send_changed E call_activate_image_update img
              (with_admin downloading_image (with_images a.device changed)) a)))

unfoldable pub revert_image : Surroundings → Image → ImageAgent → Run (ImageAgent × Option Code)
revert_image E img a =
    let images = entries a.device.image_downloads in
    on_registered (is_image_registered img images) a (
      if not (same_admin a.device.device.admin_state enabled)
      then returned (a, some failed_precondition)
      else and_then (with_state (λ i. record i { image_state = image_reverting }) img images)
          (λ changed.
            returned
              (send_changed E call_revert_image_update img (with_images a.device changed) a)))

unfoldable pub get_image_download_status :
    Surroundings → Image → ImageAgent → ImageAgent × Option Code
get_image_download_status E img a = call_adapter E call_get_image_download_status a.device img a

abbrev pub is_cancelled : DownloadState → Bool
is_cancelled download_cancelled = true
is_cancelled _ = false

-- The entries that the loop of updateImageDownload appends.
unfoldable pub kept_images : Image → List (Option Image) → Run (List (Option Image))
kept_images img [] = returned []
kept_images img (none ∷ images) = panicked
kept_images img (some image ∷ images) =
    let rest = kept_images img images in
    if same_image image img && not (is_cancelled image.download_state)
    then and_then rest (λ later. returned (some img ∷ later))
    else rest

-- make([]*voltha.ImageDownload, n)
unfoldable pub nil_entries : ℕ → List (Option Image)
nil_entries zero = []
nil_entries (suc n) = none ∷ nil_entries n

abbrev pub is_in_progress : DownloadState → Bool
is_in_progress download_requested = true
is_in_progress download_started = true
is_in_progress _ = false

abbrev pub is_activating : ImageState → Bool
is_activating image_activating = true
is_activating _ = false

abbrev pub updated_device : Image → ImageDevice → List (Option Image) → ImageDevice
updated_device img d images =
    let changed = record d { image_downloads = some images } in
    if not (is_in_progress img.download_state) || not (is_activating img.image_state)
    then with_admin enabled changed
    else changed

unfoldable pub update_image_download :
    Surroundings → Image → ImageAgent → Run (ImageAgent × Option Code)
update_image_download E img a =
    let images = entries a.device.image_downloads in
    and_then (kept_images img images) (λ kept. returned (
      stored (E.update (updated_device img a.device (nil_entries (length images) ++ kept)))
        (updated_device img a.device (nil_entries (length images) ++ kept)) a))

abbrev pub image_in : Image → List (Option Image) → Run (Result Image)
image_in img [] = returned (err not_found)
image_in img (none ∷ images) = panicked
image_in img (some image ∷ images) =
    let rest = image_in img images in if same_image image img then returned (ok image) else rest

unfoldable pub get_image_download : Image → ImageAgent → Run (Result Image)
get_image_download img a = image_in img (entries a.device.image_downloads)

pub data ImageRequest : Type 0 where
  download cancel activate revert status update : Image → ImageRequest

unfoldable pub serve : Surroundings → ImageRequest → ImageAgent → Run (ImageAgent × Option Code)
serve E (download img) a = returned (download_image E img a)
serve E (cancel img) a = cancel_image_download E img a
serve E (activate img) a = activate_image E img a
serve E (revert img) a = revert_image E img a
serve E (status img) a = returned (get_image_download_status E img a)
serve E (update img) a = update_image_download E img a
