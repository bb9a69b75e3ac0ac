-- ===== src/Mmd/Conversions/RoundTrip.antt =====
-- The two directions of src/mmd/src/conversions.cpp undo each other.
use cpp_demo_build.Prelude.{◌≡◌, refl}
use cpp_demo_build.MarketData.Messages as md
use cpp_demo_build.Mmd.Messages as mmd
use cpp_demo_build.Mmd.Conversions.{to_mmd_message, to_market_data_message}

-- Every message of the market-data domain survives the way through the normalized messages, and every
-- normalized message the way round.
pub message_round_trip :
    ((m : md.Message) → to_market_data_message (to_mmd_message m) ≡ m)
    × ((m : mmd.Message) → to_mmd_message (to_market_data_message m) ≡ m)
unfolding to_mmd_message to_market_data_message
message_round_trip = (there, back)
  where
    there : (m : md.Message) → to_market_data_message (to_mmd_message m) ≡ m
    there (md.Message.security_definition m) = refl
    there (md.Message.security_status m) = refl
    there (md.Message.execution_summary m) = refl
    there (md.Message.trade m) = refl
    there (md.Message.mbo_book_update m) = refl

    back : (m : mmd.Message) → to_mmd_message (to_market_data_message m) ≡ m
    back (mmd.Message.security_definition m) = refl
    back (mmd.Message.security_status m) = refl
    back (mmd.Message.execution_summary m) = refl
    back (mmd.Message.trade m) = refl
    back (mmd.Message.mbo_book_update m) = refl
