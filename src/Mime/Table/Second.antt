-- ===== src/Mime/Table/Second.antt =====
-- src/mime_map.cpp: entries of the table, in the order of the source.
use Prim.Native.String.{String}
use tcpflow.Base.{List, [], ◌∷◌}

abbrev pub second_entries : List (String × String)
second_entries =
    ("application/vnd.criticaltools.wbs+xml", "wbs")
    ∷ ("application/vnd.ctc-posml", "pml")
    ∷ ("application/vnd.cups-ppd", "ppd")
    ∷ ("application/vnd.curl.car", "car")
    ∷ ("application/vnd.curl.pcurl", "pcurl")
    ∷ ("application/vnd.data-vision.rdz", "rdz")
    ∷ ("application/vnd.denovo.fcselayout-link", "fe_launch")
    ∷ ("application/vnd.dna", "dna")
    ∷ ("application/vnd.dolby.mlp", "mlp")
    ∷ ("application/vnd.dpgraph", "dpg")
    ∷ ("application/vnd.dreamfactory", "dfac")
    ∷ ("application/vnd.dvb.ait", "ait")
    ∷ ("application/vnd.dvb.service", "svc")
    ∷ ("application/vnd.dynageo", "geo")
    ∷ ("application/vnd.ecowin.chart", "mag")
    ∷ ("application/vnd.enliven", "nml")
    ∷ ("application/vnd.epson.esf", "esf")
    ∷ ("application/vnd.epson.msf", "msf")
    ∷ ("application/vnd.epson.quickanime", "qam")
    ∷ ("application/vnd.epson.salt", "slt")
    ∷ ("application/vnd.epson.ssf", "ssf")
    ∷ ("application/vnd.eszigno3+xml", "es3")
    ∷ ("application/vnd.ezpix-album", "ez2")
    ∷ ("application/vnd.ezpix-package", "ez3")
    ∷ ("application/vnd.fdf", "fdf")
    ∷ ("application/vnd.fdsn.mseed", "mseed")
    ∷ ("application/vnd.fdsn.seed", "seed")
    ∷ ("application/vnd.flographit", "gph")
    ∷ ("application/vnd.fluxtime.clip", "ftc")
    ∷ ("application/vnd.framemaker", "fm")
    ∷ ("application/vnd.frogans.fnc", "fnc")
    ∷ ("application/vnd.frogans.ltf", "ltf")
    ∷ ("application/vnd.fsc.weblaunch", "fsc")
    ∷ ("application/vnd.fujitsu.oasys", "oas")
    ∷ ("application/vnd.fujitsu.oasys2", "oa2")
    ∷ ("application/vnd.fujitsu.oasys3", "oa3")
    ∷ ("application/vnd.fujitsu.oasysgp", "fg5")
    ∷ ("application/vnd.fujitsu.oasysprs", "bh2")
    ∷ ("application/vnd.fujixerox.ddd", "ddd")
    ∷ ("application/vnd.fujixerox.docuworks", "xdw")
    ∷ ("application/vnd.fujixerox.docuworks.binder", "xbd")
    ∷ ("application/vnd.fuzzysheet", "fzs")
    ∷ ("application/vnd.genomatix.tuxedo", "txd")
    ∷ ("application/vnd.geogebra.file", "ggb")
    ∷ ("application/vnd.geogebra.tool", "ggt")
    ∷ ("application/vnd.geometry-explorer", "gex")
    ∷ ("application/vnd.geonext", "gxt")
    ∷ ("application/vnd.geoplan", "g2w")
    ∷ ("application/vnd.geospace", "g3w")
    ∷ ("application/vnd.gmx", "gmx")
    ∷ ("application/vnd.google-earth.kml+xml", "kml")
    ∷ ("application/vnd.google-earth.kmz", "kmz")
    ∷ ("application/vnd.grafeq", "gqf")
    ∷ ("application/vnd.groove-account", "gac")
    ∷ ("application/vnd.groove-help", "ghf")
    ∷ ("application/vnd.groove-identity-message", "gim")
    ∷ ("application/vnd.groove-injector", "grv")
    ∷ ("application/vnd.groove-tool-message", "gtm")
    ∷ ("application/vnd.groove-tool-template", "tpl")
    ∷ ("application/vnd.groove-vcard", "vcg")
    ∷ ("application/vnd.hal+xml", "hal")
    ∷ ("application/vnd.handheld-entertainment+xml", "zmm")
    ∷ ("application/vnd.hbci", "hbci")
    ∷ ("application/vnd.hhe.lesson-player", "les")
    ∷ ("application/vnd.hp-hpgl", "hpgl")
    ∷ ("application/vnd.hp-hpid", "hpid")
    ∷ ("application/vnd.hp-hps", "hps")
    ∷ ("application/vnd.hp-jlyt", "jlt")
    ∷ ("application/vnd.hp-pcl", "pcl")
    ∷ ("application/vnd.hp-pclxl", "pclxl")
    ∷ ("application/vnd.hydrostatix.sof-data", "sfd-hdstx")
    ∷ ("application/vnd.hzn-3d-crossword", "x3d")
    ∷ ("application/vnd.ibm.minipay", "mpy")
    ∷ ("application/vnd.ibm.modcap", "afp")
    ∷ ("application/vnd.ibm.rights-management", "irm")
    ∷ ("application/vnd.ibm.secure-container", "sc")
    ∷ ("application/vnd.iccprofile", "icc")
    ∷ ("application/vnd.igloader", "igl")
    ∷ ("application/vnd.immervision-ivp", "ivp")
    ∷ ("application/vnd.immervision-ivu", "ivu")
    ∷ ("application/vnd.insors.igm", "igm")
    ∷ ("application/vnd.intercon.formnet", "xpw")
    ∷ ("application/vnd.intergeo", "i2g")
    ∷ ("application/vnd.intu.qbo", "qbo")
    ∷ ("application/vnd.intu.qfx", "qfx")
    ∷ ("application/vnd.ipunplugged.rcprofile", "rcprofile")
    ∷ ("application/vnd.irepository.package+xml", "irp")
    ∷ ("application/vnd.is-xpr", "xpr")
    ∷ ("application/vnd.isac.fcs", "fcs")
    ∷ ("application/vnd.jam", "jam")
    ∷ ("application/vnd.jcp.javame.midlet-rms", "rms")
    ∷ ("application/vnd.jisp", "jisp")
    ∷ ("application/vnd.joost.joda-archive", "joda")
    ∷ ("application/vnd.kahootz", "ktz")
    ∷ ("application/vnd.kde.karbon", "karbon")
    ∷ ("application/vnd.kde.kchart", "chrt")
    ∷ ("application/vnd.kde.kformula", "kfo")
    ∷ ("application/vnd.kde.kivio", "flw")
    ∷ ("application/vnd.kde.kontour", "kon")
    ∷ ("application/vnd.kde.kpresenter", "kpr")
    ∷ ("application/vnd.kde.kspread", "ksp")
    ∷ ("application/vnd.kde.kword", "kwd")
    ∷ ("application/vnd.kenameaapp", "htke")
    ∷ ("application/vnd.kidspiration", "kia")
    ∷ ("application/vnd.kinar", "knp")
    ∷ ("application/vnd.koan", "skp")
    ∷ ("application/vnd.kodak-descriptor", "sse")
    ∷ ("application/vnd.las.las+xml", "lasxml")
    ∷ ("application/vnd.llamagraphics.life-balance.desktop", "lbd")
    ∷ ("application/vnd.llamagraphics.life-balance.exchange+xml", "lbe")
    ∷ ("application/vnd.lotus-1-2-3", "123")
    ∷ ("application/vnd.lotus-approach", "apr")
    ∷ ("application/vnd.lotus-freelance", "pre")
    ∷ ("application/vnd.lotus-notes", "nsf")
    ∷ ("application/vnd.lotus-organizer", "org")
    ∷ ("application/vnd.lotus-screencam", "scm")
    ∷ ("application/vnd.lotus-wordpro", "lwp")
    ∷ ("application/vnd.macports.portpkg", "portpkg")
    ∷ ("application/vnd.mcd", "mcd")
    ∷ ("application/vnd.medcalcdata", "mc1")
    ∷ ("application/vnd.mediastation.cdkey", "cdkey")
    ∷ ("application/vnd.mfer", "mwf")
    ∷ ("application/vnd.mfmp", "mfm")
    ∷ ("application/vnd.micrografx.flo", "flo")
    ∷ ("application/vnd.micrografx.igx", "igx")
    ∷ ("application/vnd.mif", "mif")
    ∷ ("application/vnd.mobius.daf", "daf")
    ∷ ("application/vnd.mobius.dis", "dis")
    ∷ ("application/vnd.mobius.mbk", "mbk")
    ∷ ("application/vnd.mobius.mqy", "mqy")
    ∷ ("application/vnd.mobius.msl", "msl")
    ∷ ("application/vnd.mobius.plc", "plc")
    ∷ ("application/vnd.mobius.txf", "txf")
    ∷ ("application/vnd.mophun.application", "mpn")
    ∷ ("application/vnd.mophun.certificate", "mpc")
    ∷ ("application/vnd.mozilla.xul+xml", "xul")
    ∷ ("application/vnd.ms-artgalry", "cil")
    ∷ ("application/vnd.ms-cab-compressed", "cab")
    ∷ ("application/vnd.ms-excel", "xls")
    ∷ ("application/vnd.ms-excel.addin.macroenabled.12", "xlam")
    ∷ []
