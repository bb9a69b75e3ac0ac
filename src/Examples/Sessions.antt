-- ===== src/Examples/Sessions.antt =====
-- The session, trimming and text codec theorems at concrete inputs.
use cpp_demo_build.Prelude.{ℕ, ◌≡◌, refl, some, [], ◌∷◌, codes, arith, false, ◌≢◌, ◌==◌}
use mathlib.Core.List.{cons-ne-nil}
use cpp_demo_build.Prelude.Result.{ok}
use cpp_demo_build.Mor.Messages as mor
use cpp_demo_build.Morfix.Session.{find, remember, new_lifecycle, find-remember}
use cpp_demo_build.QuickfixFix.Message.{Message}
use cpp_demo_build.QuickfixFix.Codec.{encode, decode}
use cpp_demo_build.QuickfixFix.Codec.RoundTrip.{decode-encode}
use cpp_demo_build.Examples.Fixtures.{decimal_fmt}

abbrev cancel : mor.Request
cancel = mor.Request.cancel_request (record { client_id = 7; cl_ord_id = 4; orig_cl_ord_id = 3 })

find-remember_example : find (remember new_lifecycle cancel) 4 ≡ some cancel
find-remember_example = find-remember new_lifecycle cancel 4

abbrev order_message : Message
order_message = record {
  msg_type = codes "D";
  fields =
      record { number = 11; value = codes "42" }
      ∷ record { number = 55; value = codes "PETR4" }
      ∷ [];
}

apart : (c : ℕ) → (c == b'|') ≡ false → c ≢ b'|'
apart c h = ground arith

decode-encode_example : decode b'|' (encode decimal_fmt b'|' order_message) ≡ ok order_message
decode-encode_example =
    decode-encode decimal_fmt b'|' order_message (λ h. omega arith) (λ e. omega arith)
      (record {
        has_type = cons-ne-nil _ _;
        type_free = (apart 68 refl, tt);
        fields_fit = (
          (omega arith, λ e. omega arith, (apart 52 refl, (apart 50 refl, tt))),
          (
            (
              omega arith,
              λ e. omega arith,
              (
                apart 80 refl,
                (apart 69 refl, (apart 84 refl, (apart 82 refl, (apart 52 refl, tt)))),
              ),
            ),
            tt,
          ),
        );
        distinct = ((λ e. omega arith, tt), (tt, tt));
      })

abbrev news : Message
news = record { msg_type = codes "B"; fields = [] }

abbrev heartbeat : Message
heartbeat = record { msg_type = codes "0"; fields = [] }
