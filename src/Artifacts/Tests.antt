-- ===== src/Artifacts/Tests.antt =====
-- A store with one object, a mirror that fails, and the theorems there.
use edgar_moe.Common.{true, ◌≡◌, refl, String, [], ◌∷◌}
use edgar_moe.Common.Outcomes.{returned, raised, ◌>>=◌, ensure}
use edgar_moe.Artifacts.{
  Reference, StoreError, Library, Store, content_key, put_bytes, read_bytes, ArtifactStore,
  mirrored_put,
}
use edgar_moe.Artifacts.Roundtrip.{IsAddressed, put_bytes-read_bytes, put_bytes-keeps}
use edgar_moe.Artifacts.Mirroring.{KeepsPrimary, mirrored_put-KeepsPrimary}

-- The bytes of the tests are their own digests.
abbrev library : Library
library = record { sha256_hex = λ s. s; size = λ _. 3; base_name = λ s. s; takes = λ _. true }

abbrev holding : String → Store
holding s = record { key = "sha256" ∷ s ∷ s ∷ "forecasts.json" ∷ []; content = s } ∷ []

abbrev reference : Reference
reference = record {
  scheme = "local";
  sha256 = "abc";
  size_bytes = 3;
  key = "sha256" ∷ "ab" ∷ "abc" ∷ "labels.json" ∷ [];
}

abbrev two : Store
two = record { key = reference.key; content = "abc" } ∷ holding "xy"

written : put_bytes library "local" "abc" "labels.json" (holding "xy") ≡ returned (reference, two)
unfolding put_bytes content_key ◌>>=◌ ensure
written = refl

put_bytes-read_bytes_example :
    IsAddressed library two × (read_bytes library reference two ≡ returned "abc")
put_bytes-read_bytes_example =
    put_bytes-read_bytes library "local" "abc" "labels.json" (holding "xy") (refl, tt) (λ c e. e)
      written

abbrev older : Reference
older = record {
  scheme = "local";
  sha256 = "xy";
  size_bytes = 3;
  key = "sha256" ∷ "xy" ∷ "xy" ∷ "forecasts.json" ∷ [];
}

readable : read_bytes library older (holding "xy") ≡ returned "xy"
unfolding read_bytes
readable = refl

put_bytes-keeps_example : read_bytes library older two ≡ returned "xy"
put_bytes-keeps_example =
    put_bytes-keeps library "local" "abc" "labels.json" (holding "xy") older "xy" written readable

abbrev unreachable : ArtifactStore Store
unreachable = record {
  put = λ content name s. (raised "EndpointConnectionError", s);
  read = λ _ _. raised StoreError.os_error;
}

mirrored_put-KeepsPrimary_example :
    KeepsPrimary library "abc"
      (holding "xy")
      (mirrored_put library unreachable "abc" "labels.json" (holding "xy", []))
mirrored_put-KeepsPrimary_example =
    mirrored_put-KeepsPrimary library "abc" "labels.json" (holding "xy") unreachable [] (refl, tt)
      (λ c e. e)
