-- ===== src/Core/Directory.antt =====
-- crates/core/src/directory.rs: fetching and parsing the directory object.
use acme_wasm.Prelude.{◌++◌, Bytes, Text, text, Result, map_err}
use acme_wasm.Core.Error.{AcmeError, serialization}
use acme_wasm.Core.Transport.{HttpClient, check}
use acme_wasm.Core.Records.Directory.{Directory}
use acme_wasm.Core.Crates.{Crates}
use acme_wasm.Core.Program.{Program, attempt, io, ◌>>=◌}

module _ (c : Crates) where
  unfoldable pub parse : Bytes → Result Directory AcmeError
  parse body = map_err (λ e. serialization (text "directory: " ++ e)) (c.directory_from_slice body)

  unfoldable pub fetch : {W : Type 0} → Text → HttpClient W → Program W Directory
  unfolding parse
  fetch base_url client = do
    response ← io (client.get base_url)
    response ← attempt (check c.problem_from_slice response)
    attempt (parse response.body)
