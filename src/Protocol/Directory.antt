-- ===== src/Protocol/Directory.antt =====
-- src/protocol/directory.rs: the directory of the server, fetched once and cached.
use acmex.Base.{String, ◌<>◌, not, Option, none, some}
use acmex.Error.{AcmeError}
use acmex.Act.{pure, modify, or_raise, refuse_if, ◌>>=◌, ◌>>◌}
use acmex.Net.{Io, Directory, got, send, is_success, json_body}
use acmex.Platform.{Platform}

module _ {Key : Type 0} (p : Platform Key) where
  unfoldable pub fetch : String → Io Directory
  fetch url = do
    response ← send (got url) "Failed to fetch directory"
    refuse_if (not (is_success response.status))
        (AcmeError.protocol ("Failed to fetch directory: HTTP " <> p.status_text response.status))
    directory ←
        or_raise (json_body p.directory_of response.body)
          (λ e. AcmeError.protocol ("Failed to parse directory: " <> e))
    modify (λ w. record w { directory = some directory })
    pure directory

  -- the cached directory, or else the server's
  unfoldable pub cached_or_fetch : String → Option Directory → Io Directory
  cached_or_fetch url (some directory) = pure directory
  cached_or_fetch url none = fetch url

  unfoldable pub get : String → Io Directory
  unfolding cached_or_fetch
  get url w = cached_or_fetch url w.directory w

unfoldable pub clear_cache : Io (Unit {0})
clear_cache = modify (λ w. record w { directory = none })
