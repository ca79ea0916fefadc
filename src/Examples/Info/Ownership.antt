-- ===== src/Examples/Info/Ownership.antt =====
-- What examples/z_info.c owns, followed through a run.
use zenoh_flat_c.Base.{◌≡◌, refl, ◌∙◌, some, List, [], ◌∷◌, arith}
use zenoh_flat_c.Base.Text.{Str, codes}
use zenoh_flat_c.Trace.{Trace, config, session, zid_array}
use zenoh_flat_c.Trace.Ledger.{ledger}
use zenoh_flat_c.Examples.{Answers, open_session}
use zenoh_flat_c.Examples.Info.{print_zid, print_zids, print_zid_array, main}

print_zids-ledger :
    (zids : List Str) (rest : Trace)
    → ledger (print_zids zids rest) (zid_array ∷ session ∷ [])
      ≡ ledger rest (zid_array ∷ session ∷ [])
unfolding print_zids print_zid ledger
print_zids-ledger [] rest = refl
print_zids-ledger (zid ∷ zids) rest = print_zids-ledger zids rest

print_zid_array-ledger :
    (label : Str) (zids : List Str) (rest : Trace)
    → ledger (print_zid_array label zids rest) (zid_array ∷ session ∷ [])
      ≡ ledger rest (session ∷ [])
unfolding print_zid_array ledger
print_zid_array-ledger label zids rest = print_zids-ledger zids _

open_session-ledger :
    (answers : Answers) (rest : Trace)
    → ledger rest (session ∷ []) ≡ some []
    → ledger (open_session answers rest) (config ∷ []) ≡ some []
unfolding open_session ledger
open_session-ledger answers rest h = ground arith

-- Whatever the library answers and however many identifiers it gives, z_info uses no object that it
-- does not own, frees each text and each array exactly once, and owns nothing when it returns.
pub info_ownership :
    (answers : Answers) (own : Str) (routers peers : List Str)
    → ledger (main answers own routers peers) (config ∷ []) ≡ some []
unfolding ledger main print_zid
info_ownership answers own routers peers = open_session-ledger answers _ (
    print_zid_array-ledger (codes "routers ids") routers _
    ∙ print_zid_array-ledger (codes "peers ids") peers _)
