-- ===== src/Core/Transport.antt =====
-- crates/core/src/transport.rs: responses, and the `HttpClient` trait that every request goes by.
pub mod Reqwest
pub mod Laws
use mathlib.Core.Option
use acme_wasm.Prelude.{
  ℕ, Bool, ◌&&◌, Option, List, map, ltb, leb, if◌then◌else◌, find_first, retain, Bytes, Text, text,
  eq_ignore_ascii_case, Result, ok, err,
}
use acme_wasm.Core.Error.{AcmeError, ProblemDocument, problem_from_response}

pub record HttpResponse : Type 0 where
  pub status : ℕ
  pub headers : List (Text × Text)
  pub body : Bytes

-- the test on a header's name
abbrev pub named : Text → Text × Text → Bool
named name (k, v) = eq_ignore_ascii_case k name

abbrev value_of : Text × Text → Text
value_of (k, v) = v

unfoldable pub header : HttpResponse → Text → Option Text
header response name = Option.map value_of (find_first (named name) response.headers)

unfoldable pub headers_all : HttpResponse → Text → List Text
headers_all response name = map value_of (retain (named name) response.headers)

-- `(200..300).contains(&status)`
abbrev pub is_success : ℕ → Bool
is_success status = leb 200 status && ltb status 300

-- The trait: a request acts on the world `W` outside the program and returns its response.
pub record HttpClient (W : Type 0) : Type 0 where
  pub head : Text → W → Result HttpResponse AcmeError × W
  pub get : Text → W → Result HttpResponse AcmeError × W
  pub post_jose : Text → Bytes → W → Result HttpResponse AcmeError × W

module _ (from_slice : Bytes → Result ProblemDocument Text) where
  unfoldable pub into_error : HttpResponse → AcmeError
  into_error response =
      problem_from_response from_slice response.status (header response (text "Content-Type"))
        response.body

  -- `HttpResponse::ok`
  unfoldable pub check : HttpResponse → Result HttpResponse AcmeError
  unfolding into_error
  check response = if is_success response.status then ok response else err (into_error response)
