-- ===== src/Framing/Tests.antt =====
-- Two messages with something behind them, and a frame that is cut off.
use dist_build_sys.Base.{◌++◌, [], ◌∷◌, ◌≡◌, refl, some, codes, arith}
use dist_build_sys.Framing.{send_msgs, receive_msgs}
use dist_build_sys.Framing.RoundTrip.{receive_msgs-send_msgs}

receive_msgs-send_msgs_example :
    receive_msgs (λ text. text) 2 (send_msgs (λ msg. msg) (codes "hello" ∷ [] ∷ []) [] ++ codes "x")
    ≡ some (codes "hello" ∷ [] ∷ [], codes "x")
receive_msgs-send_msgs_example =
    receive_msgs-send_msgs (λ msg. msg) (λ text. text) (λ msg. refl) (codes "hello" ∷ [] ∷ [])
      (omega arith, (omega arith, tt)) (codes "x")
