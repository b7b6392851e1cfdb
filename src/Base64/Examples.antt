-- ===== src/Base64/Examples.antt =====
-- Base 64 numbers on concrete values.
use denora.Prelude.{◌≡◌, refl, some, CString, codes, length, arith}
use denora.Base64.{int_to_base64, base64_to_int, inttobase64, base64toint}
use denora.Base64.RoundTrip.{base64_to_int-int_to_base64, base64toint-inttobase64}

base64_to_int-int_to_base64_example :
    (s : CString) × (int_to_base64 1234567890 ≡ some s) × (base64_to_int s ≡ some 1234567890)
base64_to_int-int_to_base64_example = base64_to_int-int_to_base64 1234567890 (omega arith)

int_to_base64_test : int_to_base64 1234567890 ≡ some (codes "19bWBI")
unfolding int_to_base64
int_to_base64_test = refl

base64toint-inttobase64_example :
    (length (inttobase64 1234567 5) ≡ 5) × (base64toint (inttobase64 1234567 5) ≡ some 1234567)
base64toint-inttobase64_example = base64toint-inttobase64 4 1234567 (omega arith) (omega arith)

inttobase64_test : inttobase64 1234567 5 ≡ codes "AEtaH"
unfolding inttobase64
inttobase64_test = refl
