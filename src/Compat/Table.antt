-- ===== src/Compat/Table.antt =====
-- The table of peer versions in compat_datafellows of ssh/compat.c, and the flags of ssh/compat.h.
use Prim.Native.String.{String}
use libopenssh.Base.{Bytes, List, [], ◌∷◌, codes}

-- The flags SSH_BUG_*, SSH_OLD_* and SSH_NEW_*, each a bit of its own in the mask.
pub data Bug : Type 0 where
  bug_sigblob bug_pkservice bug_hmac bug_x11fwd old_sessionid bug_pkauth bug_debug bug_banner
        bug_ignoremsg bug_pkok bug_passwordpad bug_scanner bug_bigendianaes bug_rsasigmd5 old_dhgex
        bug_norekey bug_hbservice bug_openfailure bug_derivekey bug_dummychan bug_exteof bug_probe
        bug_firstkex old_forward_addr bug_rfwd_addr new_openssh bug_dynamic_rport :
      Bug

-- A mask of flags, as the list of its bits.
abbrev pub Bugs : Type 0
Bugs = List Bug

pub record Fellow : Type 0 where
  pub pat : Bytes
  pub bugs : Bugs

abbrev row : String → Bugs → Fellow
row pat bugs = record { pat = codes pat; bugs = bugs }

-- `check[]`, without the null row at its end.
unfoldable pub check : List Fellow
check =
    row "OpenSSH-2.0*,OpenSSH-2.1*,OpenSSH_2.1*,OpenSSH_2.2*"
      (old_sessionid ∷ bug_banner ∷ old_dhgex ∷ bug_norekey ∷ bug_exteof ∷ old_forward_addr ∷ [])
    ∷ row "OpenSSH_2.3.0*" (
        bug_banner ∷ bug_bigendianaes ∷ old_dhgex ∷ bug_norekey ∷ bug_exteof ∷ old_forward_addr
        ∷ [])
    ∷ row "OpenSSH_2.3.*"
        (bug_bigendianaes ∷ old_dhgex ∷ bug_norekey ∷ bug_exteof ∷ old_forward_addr ∷ [])
    ∷ row "OpenSSH_2.5.0p1*,OpenSSH_2.5.1p1*"
        (bug_bigendianaes ∷ old_dhgex ∷ bug_norekey ∷ bug_exteof ∷ old_forward_addr ∷ [])
    ∷ row "OpenSSH_2.5.0*,OpenSSH_2.5.1*,OpenSSH_2.5.2*"
        (old_dhgex ∷ bug_norekey ∷ bug_exteof ∷ old_forward_addr ∷ [])
    ∷ row "OpenSSH_2.5.3*" (bug_norekey ∷ bug_exteof ∷ old_forward_addr ∷ [])
    ∷ row "OpenSSH_2.*,OpenSSH_3.0*,OpenSSH_3.1*" (bug_exteof ∷ old_forward_addr ∷ [])
    ∷ row "OpenSSH_3.*" (old_forward_addr ∷ [])
    ∷ row "Sun_SSH_1.0*" (bug_norekey ∷ bug_exteof ∷ [])
    ∷ row "OpenSSH_4*" ([])
    ∷ row "OpenSSH_5*" (new_openssh ∷ bug_dynamic_rport ∷ [])
    ∷ row "OpenSSH*" (new_openssh ∷ [])
    ∷ row "*MindTerm*" ([])
    ∷ row "2.1.0*" (
        bug_sigblob ∷ bug_hmac ∷ old_sessionid ∷ bug_debug ∷ bug_rsasigmd5 ∷ bug_hbservice
        ∷ bug_firstkex ∷ [])
    ∷ row "2.1 *" (
        bug_sigblob ∷ bug_hmac ∷ old_sessionid ∷ bug_debug ∷ bug_rsasigmd5 ∷ bug_hbservice
        ∷ bug_firstkex ∷ [])
    ∷ row "2.0.13*,2.0.14*,2.0.15*,2.0.16*,2.0.17*,2.0.18*,2.0.19*" (
        bug_sigblob ∷ bug_hmac ∷ old_sessionid ∷ bug_debug ∷ bug_pkservice ∷ bug_x11fwd ∷ bug_pkok
        ∷ bug_rsasigmd5 ∷ bug_hbservice ∷ bug_openfailure ∷ bug_dummychan ∷ bug_firstkex ∷ [])
    ∷ row "2.0.11*,2.0.12*" (
        bug_sigblob ∷ bug_hmac ∷ old_sessionid ∷ bug_debug ∷ bug_pkservice ∷ bug_x11fwd ∷ bug_pkauth
        ∷ bug_pkok ∷ bug_rsasigmd5 ∷ bug_openfailure ∷ bug_dummychan ∷ bug_firstkex ∷ [])
    ∷ row "2.0.*" (
        bug_sigblob ∷ bug_hmac ∷ old_sessionid ∷ bug_debug ∷ bug_pkservice ∷ bug_x11fwd ∷ bug_pkauth
        ∷ bug_pkok ∷ bug_rsasigmd5 ∷ bug_openfailure ∷ bug_derivekey ∷ bug_dummychan ∷ bug_firstkex
        ∷ [])
    ∷ row "2.2.0*,2.3.0*" (bug_hmac ∷ bug_debug ∷ bug_rsasigmd5 ∷ bug_firstkex ∷ [])
    ∷ row "2.3.*" (bug_debug ∷ bug_rsasigmd5 ∷ bug_firstkex ∷ [])
    ∷ row "2.4" (old_sessionid ∷ [])
    ∷ row "2.*" (bug_debug ∷ bug_firstkex ∷ bug_rfwd_addr ∷ [])
    ∷ row "3.0.*" (bug_debug ∷ [])
    ∷ row "3.0 SecureCRT*" (old_sessionid ∷ [])
    ∷ row "1.7 SecureFX*" (old_sessionid ∷ [])
    ∷ row "1.2.18*,1.2.19*,1.2.20*,1.2.21*,1.2.22*" (bug_ignoremsg ∷ [])
    ∷ row "1.3.2*" (bug_ignoremsg ∷ [])
    ∷ row "*SSH Compatible Server*" (bug_passwordpad ∷ [])
    ∷ row
        "*OSU_0*,OSU_1.0*,OSU_1.1*,OSU_1.2*,OSU_1.3*,OSU_1.4*,OSU_1.5alpha1*,OSU_1.5alpha2*,OSU_1.5alpha3*"
        (bug_passwordpad ∷ [])
    ∷ row "*SSH_Version_Mapper*" (bug_scanner ∷ [])
    ∷ row "Probe-*" (bug_probe ∷ [])
    ∷ []
