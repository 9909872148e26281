-- ===== src/DeviceImages/Nothing.antt =====
-- A device whose slice of images is nil (rw_core/core/device_agent.go).
use vol_2619_voltha_go.Prelude.{
  Bool, true, false, Option, none, some, ◌≡◌, ◌&&◌, refl, if◌then◌else◌, not,
}
use vol_2619_voltha_go.Status.{Code, failed_precondition, returned}
use vol_2619_voltha_go.Transitions.{enabled, same_admin}
use vol_2619_voltha_go.DeviceImages.{
  ImageAgent, Surroundings, is_image_registered, download_image, cancel_image_download,
  activate_image, revert_image, ImageRequest, download, cancel, activate, revert, status, update,
  serve,
}

-- A request to download, cancel, activate or revert an image.
abbrev pub is_for_image : ImageRequest → Bool
is_for_image (status img) = false
is_for_image (update img) = false
is_for_image _ = true

abbrev is_download : ImageRequest → Bool
is_download (download img) = true
is_download _ = false

-- The answer to a request when no image is stored.
abbrev pub answer : ImageRequest → ImageAgent → Option Code
answer r a =
    if is_download r && same_admin a.device.device.admin_state enabled
    then none
    else some failed_precondition

-- When the list of images of a device is nil, a request to download, cancel, activate or revert
-- an image changes nothing and calls no adapter, whatever the data model answers; it answers with
-- a failed precondition, except for the download to an enabled device, which answers with
-- success.
pub serve-nil :
    (E : Surroundings) (r : ImageRequest) (a : ImageAgent)
    → a.device.image_downloads ≡ none
    → is_for_image r ≡ true
    → serve E r a ≡ returned (a, answer r a)
unfolding serve download_image cancel_image_download activate_image revert_image is_image_registered
serve-nil E (download img) a e h = simp e (at (same_admin a.device.device.admin_state enabled))
  where
    at :
        (b : Bool)
        → returned (
            if◌then◌else◌ {A = ImageAgent × Option Code}
              (not b)
              (a, some failed_precondition)
              (a, none))
          ≡ returned (a, if b then none else some failed_precondition)
    at true = refl
    at false = refl
serve-nil E (cancel img) a e h = rw e refl
serve-nil E (activate img) a e h = rw e refl
serve-nil E (revert img) a e h = rw e refl
serve-nil E (status img) a e h = cc
serve-nil E (update img) a e h = cc
