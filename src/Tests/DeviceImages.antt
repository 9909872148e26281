-- ===== src/Tests/DeviceImages.antt =====
-- Images of a device (rw_core/core/device_agent.go).
use vol_2619_voltha_go.Prelude.{String, true, Option, none, some, List, [], ◌∷◌, ◌≡◌, refl}
use vol_2619_voltha_go.Status.{ok, returned, panicked, ReturnsWith}
use vol_2619_voltha_go.DeviceAgent.{ConnectStatus}
use vol_2619_voltha_go.Transitions.{AdminState, OperStatus, same_admin}
use vol_2619_voltha_go.DeviceImages.{
  DownloadState, ImageState, Image, ImageAgent, Surroundings, download, cancel, activate, serve,
  update_image_download, kept_images, nil_entries, same_image,
}
use vol_2619_voltha_go.DeviceImages.Nothing.{serve-nil}
use vol_2619_voltha_go.DeviceImages.NilEntries.{serve-update_image_download}
use vol_2619_voltha_go.DeviceImages.NoNil.{NoNilIn, serve-NoNilIn}

abbrev image : String → Image
image name = record {
  id = "1";
  name = name;
  download_state = DownloadState.download_started;
  image_state = ImageState.image_inactive;
}

abbrev agent : AdminState → Option (List (Option Image)) → ImageAgent
agent admin images = record {
  device = record {
    device = record {
      id = "d";
      adapter = "olt";
      admin_state = admin;
      oper_status = OperStatus.active;
      connect_status = ConnectStatus.reachable;
      parent_id = "";
      reason = "";
      ports = [];
    };
    image_downloads = images;
  };
  calls = [];
}

abbrev surroundings : Surroundings
surroundings = record { call = λ c d img. none; update = λ d. ok true }

abbrev downloading : ImageAgent
downloading = agent AdminState.downloading_image (some (some (image "a") ∷ []))

serve-nil_example :
    serve surroundings (download (image "a")) (agent AdminState.enabled none)
    ≡ returned (agent AdminState.enabled none, none)
unfolding same_admin
serve-nil_example =
    serve-nil surroundings (download (image "a")) (agent AdminState.enabled none) refl refl

abbrev after : ImageAgent
after = agent AdminState.enabled (some (none ∷ some (image "a") ∷ []))

serve-update_image_download_example : serve surroundings (activate (image "a")) after ≡ panicked
unfolding update_image_download kept_images nil_entries same_image
serve-update_image_download_example =
    serve-update_image_download surroundings (image "a") downloading after (some (image "a")) []
      refl refl surroundings (activate (image "a")) refl

serve-NoNilIn_example :
    ReturnsWith (λ m. NoNilIn m.0) (serve surroundings (cancel (image "a")) downloading)
serve-NoNilIn_example = serve-NoNilIn surroundings downloading (refl, tt) (cancel (image "a")) refl
