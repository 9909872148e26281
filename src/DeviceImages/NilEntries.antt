-- ===== src/DeviceImages/NilEntries.antt =====
-- A device after an update of one of its images (rw_core/core/device_agent.go).
use mathlib.Core.Option.{none-ne-some}
use vol_2619_voltha_go.Transitions.{enabled}
use vol_2619_voltha_go.Prelude.{
  Bool, true, false, Option, none, some, List, ◌∷◌, ◌++◌, ◌≡◌, refl, sym, ap, ◌∙◌, subst, length,
  if◌then◌else◌, ◌||◌, not,
}
use vol_2619_voltha_go.Status.{Result, ok, err, Run, returned, panicked, and_then}
use vol_2619_voltha_go.DeviceImages.{
  Image, ImageDevice, ImageAgent, Surroundings, stored, entries, is_image_registered,
  cancel_image_download, activate_image, revert_image, kept_images, nil_entries, updated_device,
  update_image_download, ImageRequest, download, cancel, activate, revert, status, update, serve,
  is_in_progress, is_activating, with_admin,
}

-- The requests that look through the images.
abbrev pub looks_through : ImageRequest → Bool
looks_through (download img) = false
looks_through (status img) = false
looks_through _ = true

-- The first entry is nil.
abbrev pub StartsNil : List (Option Image) → Type 0
StartsNil images = (rest : List (Option Image)) × (images ≡ none ∷ rest)

serve-panics :
    (E : Surroundings) (r : ImageRequest) (b : ImageAgent)
    → StartsNil (entries b.device.image_downloads)
    → looks_through r ≡ true
    → serve E r b ≡ panicked
unfolding serve cancel_image_download activate_image revert_image update_image_download
    is_image_registered kept_images
serve-panics E (download img) b (rest, e) h = cc
serve-panics E (status img) b (rest, e) h = cc
serve-panics E (cancel img) b (rest, e) h = rw e refl
serve-panics E (activate img) b (rest, e) h = rw e refl
serve-panics E (revert img) b (rest, e) h = rw e refl
serve-panics E (update img) b (rest, e) h = rw e refl

updated_device-entries :
    (img : Image) (d : ImageDevice) (images : List (Option Image))
    → entries (updated_device img d images).image_downloads ≡ images
updated_device-entries img d images =
    at (not (is_in_progress img.download_state) || not (is_activating img.image_state))
  where
    changed : ImageDevice
    changed = record d { image_downloads = some images }

    at :
        (b : Bool)
        → entries (if b then with_admin enabled changed else changed).image_downloads ≡ images
    at true = refl
    at false = refl

abbrev value : {A : Type 0} → A → Run A → A
value d (returned a) = a
value d panicked = d

module _ (E : Surroundings) (img : Image) (a b : ImageAgent) where
  stored-device : (d : ImageDevice) → stored (E.update d) d a ≡ (b, none) → b.device ≡ d
  stored-device d h = at (E.update d) h
    where
      at : (r : Result Bool) → stored r d a ≡ (b, none) → b.device ≡ d
      at (err c) k = elim (none-ne-some _ (sym (ap (λ p. p.1) k))) [ ]
      at (ok false) k = elim (none-ne-some _ (sym (ap (λ p. p.1) k))) [ ]
      at (ok true) k = sym (ap (λ p. p.0.device) k)

  updated-StartsNil :
      (x : Option Image) (xs : List (Option Image))
      → a.device.image_downloads ≡ some (x ∷ xs)
      → update_image_download E img a ≡ returned (b, none)
      → StartsNil (entries b.device.image_downloads)
  unfolding update_image_download nil_entries
  updated-StartsNil x xs e h = at (kept_images img (x ∷ xs)) (
      subst
        (λ o.
          and_then (kept_images img (entries o)) (λ kept. returned (
            stored
              (E.update (updated_device img a.device (nil_entries (length (entries o)) ++ kept)))
              (updated_device img a.device (nil_entries (length (entries o)) ++ kept)) a))
          ≡ returned (b, none))
        e h)
    where
      at :
          (r : Run (List (Option Image)))
          → and_then r (λ kept. returned (
              stored
                (E.update (updated_device img a.device (none ∷ (nil_entries (length xs) ++ kept))))
                (updated_device img a.device (none ∷ (nil_entries (length xs) ++ kept)))
                a))
            ≡ returned (b, none)
          → StartsNil (entries b.device.image_downloads)
      at panicked k = cc
      at (returned kept) k = (
        nil_entries (length xs) ++ kept,
        ap (λ d. entries d.image_downloads)
              (stored-device
                (updated_device img a.device (none ∷ (nil_entries (length xs) ++ kept)))
                (ap (value (b, none)) k))
            ∙ updated_device-entries img a.device (none ∷ (nil_entries (length xs) ++ kept)),
      )

  -- After an update of an image, of a device with at least one entry in its list of images, that
  -- is stored, every later request to cancel, activate, revert or update an image panics,
  -- whatever the adapter and the data model answer.
  pub serve-update_image_download :
      (x : Option Image) (xs : List (Option Image))
      → a.device.image_downloads ≡ some (x ∷ xs)
      → update_image_download E img a ≡ returned (b, none)
      → (F : Surroundings) (r : ImageRequest) → looks_through r ≡ true
      → serve F r b ≡ panicked
  serve-update_image_download x xs e h F r looks =
      serve-panics F r b (updated-StartsNil x xs e h) looks
