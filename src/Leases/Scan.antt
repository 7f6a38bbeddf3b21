-- ===== src/Leases/Scan.antt =====
-- components/host/darwin/misc/uuid2ip/uuid2ip.go: which lease is found.
use corectl.Base.{List, [], ◌∷◌, ◌++◌, Text, ◌≡◌, ◌≢◌, refl, ◌∙◌, ap, All, split, ok, err}
use corectl.Daemon.{other}
use corectl.Leases.{Line, leases, names_mac, says_nothing, read_line, read_lines, scan, guest_ip}

-- The address that the last of the lines that lease one has.
abbrev pub last_ip : List Line → Text → Text
last_ip [] last = last
last_ip (leases ip ∷ ls) last = last_ip ls ip
last_ip (names_mac ∷ ls) last = last_ip ls last
last_ip (says_nothing ∷ ls) last = last_ip ls last

scan_to :
    (last : Text) (before after : List Line)
    → All (λ x. x ≢ names_mac) before
    → scan (before ++ names_mac ∷ after) last ≡ ok (last_ip before last)
unfolding scan
scan_to last [] after h = refl
scan_to last (leases ip ∷ ls) after h = scan_to ip ls after h.1
scan_to last (names_mac ∷ ls) after h = absurd (h.0 refl)
scan_to last (says_nothing ∷ ls) after h = scan_to last ls after h.1

scan_none : (last : Text) (ls : List Line) → All (λ x. x ≢ names_mac) ls → scan ls last ≡ err other
unfolding scan
scan_none last [] h = refl
scan_none last (leases ip ∷ ls) h = scan_none ip ls h.1
scan_none last (names_mac ∷ ls) h = absurd (h.0 refl)
scan_none last (says_nothing ∷ ls) h = scan_none last ls h.1

read_lines-append :
    (mac : Text) (ls ms : List Text)
    → read_lines mac (ls ++ ms) ≡ read_lines mac ls ++ read_lines mac ms
unfolding read_lines
read_lines-append mac [] ms = refl
read_lines-append mac (l ∷ ls) ms =
    ap (λ (x : List Line). read_line mac l ∷ x) (read_lines-append mac ls ms)

-- The address that is found is that of the last line with an address before the first line with the
-- MAC address.
pub guest_ip_lem :
    (mac all l : Text) (before after : List Text)
    → split all b'\n' ≡ before ++ l ∷ after
    → All (λ x. x ≢ names_mac) (read_lines mac before)
    → read_line mac l ≡ names_mac
    → guest_ip (ok all) mac ≡ ok (last_ip (read_lines mac before) [])
unfolding guest_ip
guest_ip_lem mac all l before after e h q =
    ap (λ (x : List Text). scan (read_lines mac x) []) e
    ∙ (ap (λ (x : List Line). scan x []) (read_lines-append mac before (l ∷ after))
        ∙ (ap (λ (x : Line). scan (read_lines mac before ++ x ∷ read_lines mac after) []) q
            ∙ scan_to [] (read_lines mac before) (read_lines mac after) h))

pub guest_ip_none :
    (mac all : Text)
    → All (λ x. x ≢ names_mac) (read_lines mac (split all b'\n'))
    → guest_ip (ok all) mac ≡ err other
unfolding guest_ip
guest_ip_none mac all h = scan_none [] _ h
