-- ===== src/DeviceImages/NoNil.antt =====
-- A device without nil images (rw_core/core/device_agent.go).
use vol_2619_voltha_go.Prelude.{
  Bool, true, false, Option, none, some, List, [], ◌∷◌, ◌++◌, ◌≡◌, refl, if◌then◌else◌, not,
  is_some, All, All-append,
}
use vol_2619_voltha_go.Status.{
  Code, failed_precondition, Result, ok, err, Run, returned, panicked, and_then, ReturnsWith,
  then_returns, ◌▸◌, ▸-inv,
}
use vol_2619_voltha_go.Transitions.{enabled, downloading_image, same_admin}
use vol_2619_voltha_go.DeviceImages.{
  call_download_image, download_requested, Image, ImageDevice, ImageAgent, ImageCall, Surroundings,
  stored, call_adapter, entries, is_image_registered, on_registered, with_state, with_images,
  with_admin, download_image, cancel_with, cancel_image_download, activate_image, revert_image,
  get_image_download_status, ImageRequest, download, cancel, activate, revert, status, update,
  same_image, serve,
}

abbrev pub NoNil : List (Option Image) → Type 0
NoNil = All (λ i. is_some i ≡ true)

-- The images of the agent's device.
abbrev pub NoNilIn : ImageAgent → Type 0
NoNilIn a = NoNil (entries a.device.image_downloads)

registered_returns :
    (img : Image) (images : List (Option Image))
    → NoNil images
    → ReturnsWith (λ b. Unit) (is_image_registered img images)
unfolding is_image_registered
registered_returns img [] h = tt
registered_returns img (none ∷ images) h = cc
registered_returns img (some image ∷ images) h =
    at (same_image image img) _ (registered_returns img images h.1)
  where
    at :
        (b : Bool) (r : Run Bool)
        → ReturnsWith (λ b. Unit) r
        → ReturnsWith (λ b. Unit) (if b then returned true else r)
    at true r k = tt
    at false r k = k

with_state_returns :
    (change : Image → Image) (img : Image) (images : List (Option Image))
    → NoNil images
    → ReturnsWith NoNil (with_state change img images)
unfolding with_state
with_state_returns change img [] h = tt
with_state_returns change img (none ∷ images) h = cc
with_state_returns change img (some image ∷ images) h =
    then_returns NoNil NoNil (with_state change img images) _
      (with_state_returns change img images h.1) (λ later k. (refl, k))

abbrev pub is_update : ImageRequest → Bool
is_update (update img) = true
is_update _ = false

abbrev Kept : ImageAgent × Option Code → Type 0
Kept m = NoNilIn m.0

with_images-NoNil :
    (d : ImageDevice) (images : List (Option Image))
    → NoNil images
    → NoNil (entries (with_images d images).image_downloads)
with_images-NoNil d images h = at d.image_downloads
  where
    at :
        (o : Option (List (Option Image)))
        → NoNil (entries (elim o [ none ↦ none | some old ↦ some images ]))
    at none = tt
    at (some old) = h

module _ (E : Surroundings) (a : ImageAgent) (h : NoNilIn a) where
  sent-Kept :
      (d : ImageDevice) (c : ImageCall) (sent : ImageDevice) (img : Image)
      → NoNil (entries d.image_downloads)
      → Kept (stored (E.update d) d a ▸ call_adapter E c sent img)
  unfolding call_adapter
  sent-Kept d c sent img k =
      ▸-inv NoNilIn (stored (E.update d) d a) (call_adapter E c sent img) (at (E.update d))
        (λ s l. l)
    where
      at : (r : Result Bool) → Kept (stored r d a)
      at (err c) = h
      at (ok false) = h
      at (ok true) = k

  if-Kept :
      (b : Bool) (x y : Run (ImageAgent × Option Code))
      → ReturnsWith Kept x
      → ReturnsWith Kept y
      → ReturnsWith Kept (if b then x else y)
  if-Kept true x y k l = k
  if-Kept false x y k l = l

  registered-Kept :
      (r : Run Bool) (x : Run (ImageAgent × Option Code))
      → ReturnsWith (λ b. Unit) r
      → ReturnsWith Kept x
      → ReturnsWith Kept (on_registered r a x)
  registered-Kept (returned true) x k l = l
  registered-Kept (returned false) x k l = h
  registered-Kept panicked x k l = elim k [ ]

  abbrev images : List (Option Image)
  images = entries a.device.image_downloads

  if-Keeps :
      (b : Bool) (x y : ImageAgent × Option Code) → Kept x → Kept y → Kept (if b then x else y)
  if-Keeps true x y k l = k
  if-Keeps false x y k l = l

  abbrev added : Image → ImageDevice → List (Option Image) → ImageDevice
  added image d images = with_admin downloading_image (with_images d (images ++ some image ∷ []))

  download-Kept : (img : Image) → Kept (download_image E img a)
  unfolding download_image
  download-Kept img =
      if-Keeps (not (same_admin a.device.device.admin_state enabled)) _ _ h
        (at (record img { download_state = download_requested }) a.device.image_downloads h)
    where
      at :
          (image : Image) (o : Option (List (Option Image)))
          → NoNil (entries o)
          → Kept (elim o [
            | none ↦ (a, none)
            | some images ↦
                stored (E.update (added image a.device images)) (added image a.device images) a
                ▸ call_adapter E call_download_image (added image a.device images) image
          ])
      at image none k = h
      at image (some images) k =
          sent-Kept (added image a.device images) call_download_image (added image a.device images)
            image
            (with_images-NoNil a.device (images ++ some image ∷ [])
              (All-append _ images (some image ∷ []) k (refl, tt)))

  -- A change of the state of an image that is registered.
  changed-Kept :
      (img : Image) (change : Image → Image) (f : List (Option Image) → ImageAgent × Option Code)
      → ((changed : List (Option Image)) → NoNil changed → Kept (f changed))
      → ReturnsWith Kept (and_then (with_state change img images) (λ changed. returned (f changed)))
  changed-Kept img change f k =
      then_returns NoNil Kept (with_state change img images) (λ changed. returned (f changed))
        (with_state_returns change img images h) k

  cancel-Kept : (img : Image) → ReturnsWith Kept (cancel_image_download E img a)
  unfolding cancel_image_download
  cancel-Kept img =
      registered-Kept (is_image_registered img images) _ (registered_returns img images h) (
        changed-Kept img _ (cancel_with E img a) (λ changed k.
          if-Keeps (same_admin a.device.device.admin_state downloading_image) _ (a, none)
            (sent-Kept (with_admin enabled (with_images a.device changed)) _ a.device img
              (with_images-NoNil a.device changed k))
            h))

  activate-Kept : (img : Image) → ReturnsWith Kept (activate_image E img a)
  unfolding activate_image
  activate-Kept img =
      registered-Kept (is_image_registered img images) _ (registered_returns img images h) (
        if-Kept (same_admin a.device.device.admin_state downloading_image)
          (returned (a, some failed_precondition)) _ h
          (changed-Kept img _ _ (λ changed k.
            sent-Kept (with_admin downloading_image (with_images a.device changed)) _ _ img
              (with_images-NoNil a.device changed k))))

  revert-Kept : (img : Image) → ReturnsWith Kept (revert_image E img a)
  unfolding revert_image
  revert-Kept img =
      registered-Kept (is_image_registered img images) _ (registered_returns img images h) (
        if-Kept (not (same_admin a.device.device.admin_state enabled))
          (returned (a, some failed_precondition)) _ h
          (changed-Kept img _ _ (λ changed k.
            sent-Kept (with_images a.device changed) _ _ img
              (with_images-NoNil a.device changed k))))

  -- When no image of a device is nil, a request to download, cancel, activate or revert an image
  -- or for its status returns without a panic, and no image is nil after it, whatever the adapter
  -- and the data model answer.
  pub serve-NoNilIn :
      (r : ImageRequest) → is_update r ≡ false → ReturnsWith (λ m. NoNilIn m.0) (serve E r a)
  unfolding serve get_image_download_status call_adapter
  serve-NoNilIn (download img) k = download-Kept img
  serve-NoNilIn (cancel img) k = cancel-Kept img
  serve-NoNilIn (activate img) k = activate-Kept img
  serve-NoNilIn (revert img) k = revert-Kept img
  serve-NoNilIn (status img) k = h
  serve-NoNilIn (update img) k = cc
