-- ===== src/Examples/Uri.antt =====
-- A URI with an address in brackets and a port behind them.
use go_diameter.Prelude.{false, some, [], ◌∷◌, ◌++◌, ◌≡◌, refl}
use go_diameter.Diam.Datatype.Uri.{tcp, diameter, parse}
use go_diameter.Diam.Datatype.Uri.Forms.{scheme, parse-brackets}

parse-brackets_example :
    parse (scheme false ++ (b'[' ∷ ((b':' ∷ b':' ∷ b'1' ∷ []) ++ (b']' ∷ b':' ∷ b'8' ∷ b'0' ∷ []))))
    ≡ some (record {
      secure = false;
      fqdn = b':' ∷ b':' ∷ b'1' ∷ [];
      port = 3868;
      transport = tcp;
      protocol = diameter;
    })
parse-brackets_example =
    parse-brackets false b':' (b':' ∷ b'1' ∷ []) (b':' ∷ b'8' ∷ b'0' ∷ [])
      (refl, (refl, (refl, tt))) (refl, (refl, (refl, (refl, (refl, (refl, (refl, tt)))))))
