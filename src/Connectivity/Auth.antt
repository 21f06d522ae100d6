-- ===== src/Connectivity/Auth.antt =====
-- okx/connectivity/auth.cpp: what is signed and sent. `sign` is `HmacSha256Base64`, of the message and the
-- secret; the texts of the clock's readings are arguments.
use cpp_trading_engine.Base.{List, [], ◌∷◌, ◌++◌, Text, codes}

pub record OkxAuth : Type 0 where
  pub api_key : Text
  pub api_secret : Text
  pub passphrase : Text

pub data HttpMethod : Type 0 where
  get_method post_method : HttpMethod

-- `ToString`
unfoldable pub method_name : HttpMethod → Text
method_name get_method = codes "GET"
method_name post_method = codes "POST"

pub record WsLoginSignature : Type 0 where
  pub timestamp : Text
  pub signature : Text

module _ (sign : Text → Text → Text) (auth : OkxAuth) where
  -- The four headers of the signed requests, of the REST interface and of the upgrade alike
  abbrev access_headers : Text → Text → List Text → List Text
  access_headers signature timestamp others =
      (codes "OK-ACCESS-KEY: " ++ auth.api_key)
      ∷ (codes "OK-ACCESS-SIGN: " ++ signature)
      ∷ (codes "OK-ACCESS-TIMESTAMP: " ++ timestamp)
      ∷ (codes "OK-ACCESS-PASSPHRASE: " ++ auth.passphrase)
      ∷ others

  -- `SignHeaders`
  unfoldable pub sign_headers : Text → HttpMethod → Text → Text → List Text
  unfolding method_name
  sign_headers timestamp method request_path body =
      access_headers
        (sign (timestamp ++ (method_name method ++ (request_path ++ body))) auth.api_secret)
        timestamp (codes "Content-Type: application/json" ∷ codes "x-simulated-trading: 1" ∷ [])

  -- `SignWsLogin`
  unfoldable pub sign_ws_login : Text → WsLoginSignature
  sign_ws_login timestamp = record {
    timestamp = timestamp;
    signature = sign (timestamp ++ codes "GET/users/self/verify") auth.api_secret;
  }

  -- `BuildPrivateWsLoginMessage`
  unfoldable pub build_private_ws_login_message : Text → Text
  unfolding sign_ws_login
  build_private_ws_login_message now =
      let login = sign_ws_login now in
      codes "{\"op\":\"login\",\"args\":[{\"apiKey\":\""
      ++ (auth.api_key
          ++ (codes "\",\"passphrase\":\""
              ++ (auth.passphrase
                  ++ (codes "\",\"timestamp\":\""
                      ++ (login.timestamp
                          ++ (codes "\",\"sign\":\"" ++ (login.signature ++ codes "\"}]}")))))))

  -- `SbeWsLoginHeaders`
  unfoldable pub sbe_ws_login_headers : Text → List Text
  unfolding sign_ws_login
  sbe_ws_login_headers now =
      let login = sign_ws_login now in access_headers login.signature login.timestamp []
